-- ===== src/Api/DeepCopy.antt =====
-- api/v1alpha1/zz_generated.deepcopy.go: the deep copies of the API types, over Api.Memory. A
-- DeepCopyInto takes the struct that it reads and gives the one that it writes into `out`, whose
-- first content, `*out = *in`, is the record that the fields are then replaced in. The deep copies
-- of the metadata, of a time and of a condition are those of k8s.io/apimachinery, a parameter.
pub mod Parts
pub mod Slices
pub mod Maps
pub mod Structs
pub mod Objects
use costguard_operator.Base.{String, List, [], ◌∷◌, Option, none, some, Map, insert}
use costguard_operator.Api.{
  BudgetNamespaceQuotaSpec, BudgetNamespaceDefaultsSpec, BudgetNamespaceEnforcementSpec,
  BudgetNamespaceCostBudgetSpec, Condition,
}
use costguard_operator.Api.Memory.{
  Ptr, SpecStruct, StatusStruct, NamespaceStruct, ListStruct, Object, string_map, time,
  condition_array, namespace_array, namespace_struct, list_struct, spec_struct, status_struct,
  quota_struct, defaults_struct, enforcement_struct, cost_budget_struct, Cmd, pure, ◌>>=◌, ◌>>◌,
  new, store, load, expect,
}

pub record CopyMethods (ObjectMeta ListMeta : Type 0) : Type 0 where
  pub copy_object_meta : ObjectMeta → Cmd ObjectMeta ListMeta ObjectMeta
  pub copy_list_meta : ListMeta → Cmd ObjectMeta ListMeta ListMeta
  -- (*metav1.Time).DeepCopy of a pointer that is not nil
  pub copy_time : Ptr → Cmd ObjectMeta ListMeta Ptr
  pub copy_condition : Condition → Cmd ObjectMeta ListMeta Condition

-- The objects of a type, among all.
abbrev pub Kept : Type 0 → Type 0 → Type 0 → Type 0
Kept ObjectMeta ListMeta A = Object ObjectMeta ListMeta → Option A

module _ {ObjectMeta ListMeta : Type 0} where
  abbrev pub as_map : Kept ObjectMeta ListMeta (Map String)
  as_map (string_map m) = some m
  as_map _ = none

  abbrev pub as_conditions : Kept ObjectMeta ListMeta (List Condition)
  as_conditions (condition_array cs) = some cs
  as_conditions _ = none

  abbrev pub as_items : Kept ObjectMeta ListMeta (List (NamespaceStruct ObjectMeta))
  as_items (namespace_array items) = some items
  as_items _ = none

  abbrev pub as_namespace : Kept ObjectMeta ListMeta (NamespaceStruct ObjectMeta)
  as_namespace (namespace_struct x) = some x
  as_namespace _ = none

  abbrev pub as_list : Kept ObjectMeta ListMeta (ListStruct ListMeta)
  as_list (list_struct x) = some x
  as_list _ = none

  abbrev pub as_spec : Kept ObjectMeta ListMeta SpecStruct
  as_spec (spec_struct x) = some x
  as_spec _ = none

  abbrev pub as_status : Kept ObjectMeta ListMeta StatusStruct
  as_status (status_struct x) = some x
  as_status _ = none

  abbrev pub as_quota : Kept ObjectMeta ListMeta BudgetNamespaceQuotaSpec
  as_quota (quota_struct x) = some x
  as_quota _ = none

  abbrev pub as_defaults : Kept ObjectMeta ListMeta BudgetNamespaceDefaultsSpec
  as_defaults (defaults_struct x) = some x
  as_defaults _ = none

  abbrev pub as_enforcement : Kept ObjectMeta ListMeta BudgetNamespaceEnforcementSpec
  as_enforcement (enforcement_struct x) = some x
  as_enforcement _ = none

  abbrev pub as_cost_budget : Kept ObjectMeta ListMeta BudgetNamespaceCostBudgetSpec
  as_cost_budget (cost_budget_struct x) = some x
  as_cost_budget _ = none

  unfoldable pub load_as :
      {A : Type 0} → Kept ObjectMeta ListMeta A → Ptr → Cmd ObjectMeta ListMeta A
  load_as as_type p = do x ← load p; expect (as_type x)

  -- A copy under `if in.F != nil`.
  abbrev pub if_set :
      (Ptr → Cmd ObjectMeta ListMeta Ptr) → Option Ptr → Cmd ObjectMeta ListMeta (Option Ptr)
  if_set copy none = pure none
  if_set copy (some p) = do q ← copy p; pure (some q)

  -- (*out)[key] = val
  unfoldable pub set_entry : Ptr → String → String → Cmd ObjectMeta ListMeta (Unit {0})
  unfolding load_as
  set_entry q key val = do m ← load_as as_map q; store q (string_map (insert key val m))

  -- The loop over the entries of a map.
  unfoldable pub set_entries : Ptr → Map String → Cmd ObjectMeta ListMeta (Unit {0})
  set_entries q [] = pure tt
  set_entries q ((key, val) ∷ rest) = do set_entry q key val; set_entries q rest

  -- The block of `in.Labels`, and that of `in.Annotations`.
  unfoldable pub copy_map : Ptr → Cmd ObjectMeta ListMeta Ptr
  copy_map p = do m ← load_as as_map p; q ← new; store q (string_map []); set_entries q m; pure q

  -- The block of `in.CostBudget`.
  unfoldable pub copy_cost_budget : Ptr → Cmd ObjectMeta ListMeta Ptr
  copy_cost_budget p = do
    q ← new
    cb ← load_as as_cost_budget p
    store q (cost_budget_struct cb)
    pure q

  -- (*BudgetNamespaceSpec).DeepCopyInto
  unfoldable pub spec_deep_copy_into : SpecStruct → Cmd ObjectMeta ListMeta SpecStruct
  spec_deep_copy_into s = do
    labels ← if_set copy_map s.labels
    annotations ← if_set copy_map s.annotations
    cost_budget ← if_set copy_cost_budget s.cost_budget
    pure (record s { labels = labels; annotations = annotations; cost_budget = cost_budget })

  -- The loop over the elements of a slice.
  unfoldable pub copy_each :
      {A : Type 0} → (A → Cmd ObjectMeta ListMeta A) → List A → Cmd ObjectMeta ListMeta (List A)
  copy_each copy_into [] = pure []
  copy_each copy_into (x ∷ xs) = do y ← copy_into x; ys ← copy_each copy_into xs; pure (y ∷ ys)

  -- A slice that is not nil: a new array, whose elements are written one by one. Nothing reads it
  -- before the last is written, so the array is stored once.
  unfoldable pub copy_slice :
      {A : Type 0}
      → Kept ObjectMeta ListMeta (List A)
      → (List A → Object ObjectMeta ListMeta)
      → (A → Cmd ObjectMeta ListMeta A)
      → Ptr
      → Cmd ObjectMeta ListMeta Ptr
  copy_slice as_type object copy_into p = do
    xs ← load_as as_type p
    q ← new
    ys ← copy_each copy_into xs
    store q (object ys)
    pure q

  -- The DeepCopyInto of the structs without pointers: `*out = *in`.
  unfoldable pub plain_deep_copy_into : {A : Type 0} → A → Cmd ObjectMeta ListMeta A
  plain_deep_copy_into x = pure x

  -- in.DeepCopyInto(out), with the struct that `in` points to
  unfoldable pub read_and_copy :
      {A : Type 0}
      → Kept ObjectMeta ListMeta A
      → (A → Cmd ObjectMeta ListMeta A)
      → Ptr
      → Cmd ObjectMeta ListMeta A
  read_and_copy as_type copy_into p = do x ← load_as as_type p; copy_into x

  -- The DeepCopy of a pointer that is not nil: a new struct that DeepCopyInto writes into.
  unfoldable pub new_copy :
      {A : Type 0}
      → Kept ObjectMeta ListMeta A
      → (A → Object ObjectMeta ListMeta)
      → (A → Cmd ObjectMeta ListMeta A)
      → Ptr
      → Cmd ObjectMeta ListMeta Ptr
  new_copy as_type object copy_into p = do
    q ← new
    y ← read_and_copy as_type copy_into p
    store q (object y)
    pure q

  -- The DeepCopy of a type: nil for nil.
  unfoldable pub deep_copy :
      {A : Type 0}
      → Kept ObjectMeta ListMeta A
      → (A → Object ObjectMeta ListMeta)
      → (A → Cmd ObjectMeta ListMeta A)
      → Option Ptr
      → Cmd ObjectMeta ListMeta (Option Ptr)
  deep_copy as_type object copy_into = if_set (new_copy as_type object copy_into)

  unfoldable pub spec_deep_copy : Option Ptr → Cmd ObjectMeta ListMeta (Option Ptr)
  spec_deep_copy = deep_copy as_spec spec_struct spec_deep_copy_into

  unfoldable pub quota_deep_copy : Option Ptr → Cmd ObjectMeta ListMeta (Option Ptr)
  quota_deep_copy = deep_copy as_quota quota_struct plain_deep_copy_into

  unfoldable pub defaults_deep_copy : Option Ptr → Cmd ObjectMeta ListMeta (Option Ptr)
  defaults_deep_copy = deep_copy as_defaults defaults_struct plain_deep_copy_into

  unfoldable pub enforcement_deep_copy : Option Ptr → Cmd ObjectMeta ListMeta (Option Ptr)
  enforcement_deep_copy = deep_copy as_enforcement enforcement_struct plain_deep_copy_into

  unfoldable pub cost_budget_deep_copy : Option Ptr → Cmd ObjectMeta ListMeta (Option Ptr)
  cost_budget_deep_copy = deep_copy as_cost_budget cost_budget_struct plain_deep_copy_into

module _ {ObjectMeta ListMeta : Type 0} (methods : CopyMethods ObjectMeta ListMeta) where
  -- (*BudgetNamespaceStatus).DeepCopyInto
  unfoldable pub status_deep_copy_into : StatusStruct → Cmd ObjectMeta ListMeta StatusStruct
  status_deep_copy_into s = do
    expires_at ← if_set methods.copy_time s.expires_at
    last_enforcement_at ← if_set methods.copy_time s.last_enforcement_at
    last_cost_query_at ← if_set methods.copy_time s.last_cost_query_at
    conditions ←
        if_set (copy_slice as_conditions condition_array methods.copy_condition) s.conditions
    pure (record s {
      expires_at = expires_at;
      last_enforcement_at = last_enforcement_at;
      last_cost_query_at = last_cost_query_at;
      conditions = conditions;
    })

  -- (*BudgetNamespace).DeepCopyInto
  unfoldable pub namespace_deep_copy_into :
      NamespaceStruct ObjectMeta → Cmd ObjectMeta ListMeta (NamespaceStruct ObjectMeta)
  namespace_deep_copy_into x = do
    object_meta ← methods.copy_object_meta x.object_meta
    spec ← spec_deep_copy_into x.spec
    status ← status_deep_copy_into x.status
    pure (record x { object_meta = object_meta; spec = spec; status = status })

  -- (*BudgetNamespaceList).DeepCopyInto
  unfoldable pub list_deep_copy_into :
      ListStruct ListMeta → Cmd ObjectMeta ListMeta (ListStruct ListMeta)
  list_deep_copy_into x = do
    list_meta ← methods.copy_list_meta x.list_meta
    items ← if_set (copy_slice as_items namespace_array namespace_deep_copy_into) x.items
    pure (record x { list_meta = list_meta; items = items })

  unfoldable pub status_deep_copy : Option Ptr → Cmd ObjectMeta ListMeta (Option Ptr)
  status_deep_copy = deep_copy as_status status_struct status_deep_copy_into

  unfoldable pub namespace_deep_copy : Option Ptr → Cmd ObjectMeta ListMeta (Option Ptr)
  namespace_deep_copy = deep_copy as_namespace namespace_struct namespace_deep_copy_into

  unfoldable pub list_deep_copy : Option Ptr → Cmd ObjectMeta ListMeta (Option Ptr)
  list_deep_copy = deep_copy as_list list_struct list_deep_copy_into

  -- DeepCopyObject of the two types that have one: the interface value is nil where the pointer is.
  unfoldable pub namespace_deep_copy_object : Option Ptr → Cmd ObjectMeta ListMeta (Option Ptr)
  namespace_deep_copy_object p = do c ← namespace_deep_copy p; pure c

  unfoldable pub list_deep_copy_object : Option Ptr → Cmd ObjectMeta ListMeta (Option Ptr)
  list_deep_copy_object p = do c ← list_deep_copy p; pure c
