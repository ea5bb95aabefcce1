-- ===== src/Examples/Copies.antt =====
-- Deep copies in a memory of a BudgetNamespace with labels, a cost budget, a time and a condition.
-- Here the metadata is the annotations of the object, and the copy of a time is a new time.
use costguard_operator.Base.{
  ◌+◌, ◌≡◌, String, List, [], ◌∷◌, Option, none, some, Map, pos, refl, arith, eqb, if◌then◌else◌,
  lookup, insert,
}
use costguard_operator.Go.Time.{Time}
use costguard_operator.Api.{text, Condition}
use costguard_operator.Api.Memory.{
  Ptr, NamespaceStruct, Object, Memory, string_map, time, condition_array, namespace_array,
  namespace_struct, list_struct, cost_budget_struct, new, store, load,
}
use costguard_operator.Api.Memory.Copying.{Yields}
use costguard_operator.Api.Memory.Reads.{
  Plain, Plain-IsLocal, Entries, Entries-IsLocal, Points, Points-IsLocal, OrNil-IsLocal,
}
use costguard_operator.Api.Memory.Values.{MapReads, NamespaceValue, ListValue, NamespaceReads}
use costguard_operator.Api.Memory.Writes.{written, written_other}
use costguard_operator.Api.DeepCopy.{
  CopyMethods, Kept, if_set, set_entry, set_entries, copy_map, copy_cost_budget, copy_each,
  copy_slice, load_as, plain_deep_copy_into, read_and_copy, new_copy, deep_copy,
  spec_deep_copy_into, status_deep_copy_into, namespace_deep_copy_into, namespace_deep_copy,
  namespace_deep_copy_object, list_deep_copy_object,
}
use costguard_operator.Api.DeepCopy.Parts.{if_set-Copies, new_copy-Copies, Plain-Copies}
use costguard_operator.Api.DeepCopy.Maps.{copy_map-Copies}
use costguard_operator.Api.DeepCopy.Structs.{CopyLaws}
use costguard_operator.Api.DeepCopy.Objects.{
  NamespacePointer, ListPointer, namespace_deep_copied, list_deep_copied, copy_independent,
}
use costguard_operator.Examples.Cluster.{spec, status, cost_budget}

abbrev Meta : Type 0
Meta = Option Ptr

abbrev as_time : Kept Meta String Time
as_time (time t) = some t
as_time _ = none

abbrev methods : CopyMethods Meta String
methods = record {
  copy_object_meta = if_set copy_map;
  copy_list_meta = plain_deep_copy_into;
  copy_time = new_copy as_time time plain_deep_copy_into;
  copy_condition = plain_deep_copy_into;
}

laws : CopyLaws methods MapReads Plain
laws = record {
  meta_local = OrNil-IsLocal _ (Points-IsLocal string_map Entries Entries-IsLocal);
  list_meta_local = Plain-IsLocal;
  meta_copied = if_set-Copies (Points string_map Entries) copy_map copy_map-Copies;
  list_meta_copied = Plain-Copies;
  time_copied =
      new_copy-Copies Plain plain_deep_copy_into Plain-IsLocal Plain-Copies as_time time
        (λ x. refl);
  condition_copied = Plain-Copies;
}

abbrev labels : Map String
labels = ("team", "a") ∷ ("env", "dev") ∷ []

abbrev ready : Condition
ready = record {
  condition_type = "Ready";
  status = "True";
  reason = "Reconciled";
  message = text "ok";
  observed_generation = pos 1;
}

-- Labels at 0, which the object and its spec share; the cost budget at 1, a time at 2, the
-- conditions at 3.
abbrev namespace_at : NamespaceStruct Meta
namespace_at = record {
  type_meta = record { kind = "BudgetNamespace"; api_version = "v1alpha1" };
  object_meta = some 0;
  spec = record {
    namespace_name = spec.namespace_name;
    labels = some 0;
    annotations = none;
    quota = spec.quota;
    defaults = spec.defaults;
    ttl = spec.ttl;
    enforcement = spec.enforcement;
    cost_budget = some 1;
  };
  status = record {
    observed_generation = status.observed_generation;
    managed_namespace = status.managed_namespace;
    expires_at = none;
    last_enforcement_at = none;
    last_enforcement_operation = "";
    last_cost_query_at = some 2;
    last_observed_spend_usd = status.last_observed_spend_usd;
    conditions = some 3;
  };
}

-- The objects at the addresses from the first on.
abbrev from_address : Ptr → List (Object Meta String) → Ptr → Option (Object Meta String)
from_address first [] a = none
from_address first (x ∷ xs) a = if eqb a first then some x else from_address (first + 1) xs a

abbrev objects : List (Object Meta String)
objects =
    string_map labels
    ∷ cost_budget_struct cost_budget
    ∷ time (pos 1000)
    ∷ condition_array (ready ∷ [])
    ∷ namespace_struct namespace_at
    ∷ namespace_array (namespace_at ∷ namespace_at ∷ [])
    ∷ list_struct (record { type_meta = namespace_at.type_meta; list_meta = "7"; items = some 5 })
    ∷ []

abbrev memory : Memory Meta String
memory = record { next = 7; cell = from_address 0 objects }

abbrev namespace_value : NamespaceValue (Option (Map String))
namespace_value = record {
  type_meta = namespace_at.type_meta;
  object_meta = some labels;
  spec = record spec { labels = some labels };
  status = record {
    status = record status { conditions = ready ∷ [] };
    listed = some (ready ∷ []);
  };
}

abbrev list_value : ListValue (Option (Map String)) String
list_value = record {
  type_meta = namespace_at.type_meta;
  list_meta = "7";
  items = some (namespace_value ∷ namespace_value ∷ []);
}

labels_read : MapReads {ObjectMeta = Meta} {ListMeta = String} 0 7 memory (some 0) (some labels)
unfolding lookup
labels_read = record {
  content = labels;
  above = omega arith;
  below = omega arith;
  cell = refl;
  reads = (refl, (refl, (refl, tt)));
}

namespace_read : NamespaceReads {ListMeta = String} MapReads 0 7 memory namespace_at namespace_value
namespace_read = record {
  type_meta = refl;
  object_meta = labels_read;
  spec = record {
    namespace_name = refl;
    labels = labels_read;
    annotations = tt;
    quota = refl;
    defaults = refl;
    ttl = refl;
    enforcement = refl;
    cost_budget = record {
      content = cost_budget;
      above = omega arith;
      below = omega arith;
      cell = refl;
      reads = refl;
    };
  };
  status = record {
    observed_generation = refl;
    managed_namespace = refl;
    expires_at = tt;
    last_enforcement_at = tt;
    last_enforcement_operation = refl;
    last_cost_query_at = record {
      content = pos 1000;
      above = omega arith;
      below = omega arith;
      cell = refl;
      reads = refl;
    };
    last_observed_spend_usd = refl;
    conditions = record {
      content = ready ∷ [];
      above = omega arith;
      below = omega arith;
      cell = refl;
      reads = (refl, tt);
    };
    conditions_listed = refl;
  };
}

pointer_read :
    NamespacePointer {ListMeta = String} MapReads 0 7 memory (some 4) (some namespace_value)
pointer_read = record {
  content = namespace_at;
  above = omega arith;
  below = omega arith;
  cell = refl;
  reads = namespace_read;
}

list_read : ListPointer MapReads Plain 0 7 memory (some 6) (some list_value)
list_read = record {
  content = record { type_meta = namespace_at.type_meta; list_meta = "7"; items = some 5 };
  above = omega arith;
  below = omega arith;
  cell = refl;
  reads = record {
    type_meta = refl;
    list_meta = refl;
    items = record {
      content = namespace_at ∷ namespace_at ∷ [];
      above = omega arith;
      below = omega arith;
      cell = refl;
      reads = (namespace_read, (namespace_read, tt));
    };
  };
}

abbrev memory_of : {A : Type 0} → Option (A × Memory Meta String) → Memory Meta String
memory_of none = memory
memory_of (some (a, h)) = h

namespace_deep_copied_example :
    Yields
      (λ q h'. NamespacePointer MapReads 7 h'.next h' q (some namespace_value))
      memory
      (namespace_deep_copy_object methods (some 4) memory)
namespace_deep_copied_example =
    namespace_deep_copied methods MapReads Plain laws 0 7 memory (some 4) (some namespace_value)
      (omega arith) pointer_read

list_deep_copied_example :
    Yields
      (λ q h'. ListPointer MapReads Plain 7 h'.next h' q (some list_value))
      memory
      (list_deep_copy_object methods (some 6) memory)
list_deep_copied_example =
    list_deep_copied methods MapReads Plain laws 0 7 memory (some 6) (some list_value) (omega arith)
      list_read

-- The memory after the copy, and what writes to one side and to the other make of it.
abbrev copied_memory : Memory Meta String
copied_memory = memory_of (namespace_deep_copy methods (some 4) memory)

abbrev emptied : Ptr → Memory Meta String
emptied p = written p (string_map []) copied_memory

copied_to : namespace_deep_copy methods (some 4) memory ≡ some (some 7, copied_memory)
unfolding namespace_deep_copy deep_copy new_copy read_and_copy load_as load new store
    namespace_deep_copy_into spec_deep_copy_into status_deep_copy_into copy_map set_entries
    set_entry copy_cost_budget copy_slice copy_each plain_deep_copy_into insert
copied_to = refl

copy_independent_example :
    NamespacePointer MapReads 7 copied_memory.next (emptied 0) (some 7) (some namespace_value)
    × NamespacePointer MapReads 0 7 (emptied 8) (some 4) (some namespace_value)
copy_independent_example =
    copy_independent methods MapReads Plain laws 0 7 memory copied_memory (emptied 0) (emptied 8)
      (some 4) (some 7) (some namespace_value) (omega arith) pointer_read copied_to
      (λ a above below.
        written_other 0 a (string_map []) copied_memory (λ e. absurd (omega (arith, e, above))))
      (λ a above below.
        written_other 8 a (string_map []) copied_memory (λ e. absurd (omega (arith, e, below))))
