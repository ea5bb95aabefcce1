-- ===== src/Api/DeepCopy/Objects.antt =====
-- The DeepCopy of each type.
use costguard_operator.Base.{◌≤◌, ◌≡◌, refl, sym, ◌∙◌, subst, Option, some, arith}
use mathlib.Core.Option.{some-injective}
use costguard_operator.Api.Memory.{
  Ptr, Object, Memory, namespace_struct, list_struct, spec_struct, status_struct, quota_struct,
  defaults_struct, enforcement_struct, cost_budget_struct, Cmd, pure, ◌>>=◌,
}
use costguard_operator.Api.Memory.Copying.{
  Reading, Same, Grown, Grown-refl, Yields, Yields-bind, IsLocal, Copies,
}
use costguard_operator.Api.Memory.Reads.{
  Plain, Plain-IsLocal, Points, Points-IsLocal, OrNil, OrNil-IsLocal,
}
use costguard_operator.Api.Memory.Values.{
  SpecReads, SpecReads-IsLocal, StatusReads, StatusReads-IsLocal, NamespaceValue, ListValue,
  NamespaceReads, NamespaceReads-IsLocal, ListReads, ListReads-IsLocal,
}
use costguard_operator.Api.DeepCopy.{
  CopyMethods, Kept, deep_copy, as_namespace, as_list, as_spec, as_status, as_quota, as_defaults,
  as_enforcement, as_cost_budget, spec_deep_copy, status_deep_copy, quota_deep_copy,
  defaults_deep_copy, enforcement_deep_copy, cost_budget_deep_copy, namespace_deep_copy,
  list_deep_copy, namespace_deep_copy_object, list_deep_copy_object,
}
use costguard_operator.Api.DeepCopy.Parts.{if_set-Copies, new_copy-Copies, Plain-Copies}
use costguard_operator.Api.DeepCopy.Structs.{
  CopyLaws, spec_deep_copy_into-Copies, status_deep_copy_into-Copies,
  namespace_deep_copy_into-Copies, list_deep_copy_into-Copies,
}

module _ {ObjectMeta ListMeta : Type 0} where
  -- A pointer, possibly nil, to a struct.
  abbrev pub Pointer :
      {X V : Type 0}
      → (X → Object ObjectMeta ListMeta)
      → Reading ObjectMeta ListMeta X V
      → Reading ObjectMeta ListMeta (Option Ptr) (Option V)
  Pointer object R = OrNil (Points object R)

  deep_copy-Copies :
      {X V : Type 0} {R : Reading ObjectMeta ListMeta X V} {into : X → Cmd ObjectMeta ListMeta X}
      (as_type : Kept ObjectMeta ListMeta X) (object : X → Object ObjectMeta ListMeta)
      → ((x : X) → as_type (object x) ≡ some x)
      → IsLocal R
      → Copies R into
      → Copies (Pointer object R) (deep_copy as_type object into)
  unfolding deep_copy
  deep_copy-Copies {R} {into} as_type object of_type l c =
      if_set-Copies _ _ (new_copy-Copies R into l c as_type object of_type)

  -- A command that hands on what another gives.
  handed_on-Copies :
      {X V : Type 0} {R : Reading ObjectMeta ListMeta X V} {copy : X → Cmd ObjectMeta ListMeta X}
      → Copies R copy
      → Copies R (λ x. copy x >>= λ y. pure y)
  handed_on-Copies {R} {copy} c = record {
    copied = λ lo hi h x v below r.
        Yields-bind (λ y h'. R h.next h'.next h' y v) (λ y h'. R h.next h'.next h' y v) (copy x)
          (λ y. pure y) h (c.copied lo hi h x v below r)
          (λ y h1 g k. record {
            value = y;
            after = h1;
            returns = refl;
            grown = Grown-refl h1;
            holds = k;
          });
  }

  -- The deep copies of the specification, of the status, whose times and conditions apimachinery
  -- copies, and of the four structs without pointers.
  pub parts_deep_copied :
      {Meta ListedMeta : Type 0} (methods : CopyMethods ObjectMeta ListMeta)
      (MetaReads : Reading ObjectMeta ListMeta ObjectMeta Meta)
      (ListMetaReads : Reading ObjectMeta ListMeta ListMeta ListedMeta)
      → CopyLaws methods MetaReads ListMetaReads
      → Copies {ObjectMeta = ObjectMeta} {ListMeta = ListMeta}
          (Pointer spec_struct SpecReads)
          spec_deep_copy
        × Copies (Pointer status_struct StatusReads) (status_deep_copy methods)
        × Copies {ObjectMeta = ObjectMeta} {ListMeta = ListMeta}
            (Pointer quota_struct Plain)
            quota_deep_copy
        × Copies {ObjectMeta = ObjectMeta} {ListMeta = ListMeta}
            (Pointer defaults_struct Plain)
            defaults_deep_copy
        × Copies {ObjectMeta = ObjectMeta} {ListMeta = ListMeta}
            (Pointer enforcement_struct Plain)
            enforcement_deep_copy
        × Copies {ObjectMeta = ObjectMeta} {ListMeta = ListMeta}
            (Pointer cost_budget_struct Plain)
            cost_budget_deep_copy
  unfolding spec_deep_copy status_deep_copy quota_deep_copy defaults_deep_copy enforcement_deep_copy
      cost_budget_deep_copy
  parts_deep_copied methods MetaReads ListMetaReads laws = (
    deep_copy-Copies as_spec spec_struct (λ x. refl) SpecReads-IsLocal spec_deep_copy_into-Copies,
    deep_copy-Copies as_status status_struct (λ x. refl) StatusReads-IsLocal
        (status_deep_copy_into-Copies methods MetaReads ListMetaReads laws),
    deep_copy-Copies as_quota quota_struct (λ x. refl) Plain-IsLocal Plain-Copies,
    deep_copy-Copies as_defaults defaults_struct (λ x. refl) Plain-IsLocal Plain-Copies,
    deep_copy-Copies as_enforcement enforcement_struct (λ x. refl) Plain-IsLocal Plain-Copies,
    deep_copy-Copies as_cost_budget cost_budget_struct (λ x. refl) Plain-IsLocal Plain-Copies,
  )

module _ {ObjectMeta ListMeta Meta : Type 0}
    (MetaReads : Reading ObjectMeta ListMeta ObjectMeta Meta) where
  abbrev pub NamespacePointer :
      Reading ObjectMeta ListMeta (Option Ptr) (Option (NamespaceValue Meta))
  NamespacePointer = Pointer namespace_struct (NamespaceReads MetaReads)

  abbrev pub ListPointer :
      {ListedMeta : Type 0}
      → Reading ObjectMeta ListMeta ListMeta ListedMeta
      → Reading ObjectMeta ListMeta (Option Ptr) (Option (ListValue Meta ListedMeta))
  ListPointer ListMetaReads = Pointer list_struct (ListReads MetaReads ListMetaReads)

module _ {ObjectMeta ListMeta Meta ListedMeta : Type 0} (methods : CopyMethods ObjectMeta ListMeta)
    (MetaReads : Reading ObjectMeta ListMeta ObjectMeta Meta)
    (ListMetaReads : Reading ObjectMeta ListMeta ListMeta ListedMeta)
    (laws : CopyLaws methods MetaReads ListMetaReads) where
  NamespacePointer-IsLocal : IsLocal (NamespacePointer MetaReads)
  NamespacePointer-IsLocal =
      OrNil-IsLocal _
        (Points-IsLocal namespace_struct _ (NamespaceReads-IsLocal MetaReads laws.meta_local))

  namespace_deep_copy-Copies : Copies (NamespacePointer MetaReads) (namespace_deep_copy methods)
  unfolding namespace_deep_copy
  namespace_deep_copy-Copies =
      deep_copy-Copies as_namespace namespace_struct (λ x. refl)
        (NamespaceReads-IsLocal MetaReads laws.meta_local)
        (namespace_deep_copy_into-Copies methods MetaReads ListMetaReads laws)

  list_deep_copy-Copies : Copies (ListPointer MetaReads ListMetaReads) (list_deep_copy methods)
  unfolding list_deep_copy
  list_deep_copy-Copies =
      deep_copy-Copies as_list list_struct (λ x. refl)
        (ListReads-IsLocal MetaReads ListMetaReads laws.meta_local laws.list_meta_local)
        (list_deep_copy_into-Copies methods MetaReads ListMetaReads laws)

  -- Where a pointer to a BudgetNamespace, or nil, stands for a value through addresses in use,
  -- its DeepCopyObject succeeds and changes nothing in use, and the copy stands for the same
  -- value through new addresses alone; the deep copies of apimachinery do what they document.
  pub namespace_deep_copied :
      (lo hi : Ptr) (h : Memory ObjectMeta ListMeta) (p : Option Ptr)
      (v : Option (NamespaceValue Meta))
      → hi ≤ h.next
      → NamespacePointer MetaReads lo hi h p v
      → Yields
          (λ q h'. NamespacePointer MetaReads h.next h'.next h' q v)
          h
          (namespace_deep_copy_object methods p h)
  unfolding namespace_deep_copy_object
  namespace_deep_copied = (handed_on-Copies namespace_deep_copy-Copies).copied

  -- Where a pointer to a BudgetNamespaceList, or nil, stands for a value through addresses in
  -- use, its DeepCopyObject succeeds and changes nothing in use, and the copy stands for the
  -- same value, with each of its items, through new addresses alone; the deep copies of
  -- apimachinery do what they document.
  pub list_deep_copied :
      (lo hi : Ptr) (h : Memory ObjectMeta ListMeta) (p : Option Ptr)
      (v : Option (ListValue Meta ListedMeta))
      → hi ≤ h.next
      → ListPointer MetaReads ListMetaReads lo hi h p v
      → Yields
          (λ q h'. ListPointer MetaReads ListMetaReads h.next h'.next h' q v)
          h
          (list_deep_copy_object methods p h)
  unfolding list_deep_copy_object
  list_deep_copied = (handed_on-Copies list_deep_copy-Copies).copied

  -- After the DeepCopy of a BudgetNamespace, or of nil, the copy still stands for the value in
  -- any memory that keeps the addresses made for it, and the original in any memory that keeps
  -- those in use before: neither side sees what is written to the other; the deep copies of
  -- apimachinery do what they document.
  pub copy_independent :
      (lo hi : Ptr) (h h1 h2 h3 : Memory ObjectMeta ListMeta) (p q : Option Ptr)
      (v : Option (NamespaceValue Meta))
      → hi ≤ h.next
      → NamespacePointer MetaReads lo hi h p v
      → namespace_deep_copy methods p h ≡ some (q, h1)
      → Same h.next h1.next h1 h2
      → Same 0 h.next h1 h3
      → NamespacePointer MetaReads h.next h1.next h2 q v × NamespacePointer MetaReads lo hi h3 p v
  copy_independent lo hi h h1 h2 h3 p q v below r run copy_kept original_kept =
      let y = (namespace_deep_copy-Copies).copied lo hi h p v below r in
      let e = some-injective (y.value, y.after) (q, h1) (sym y.returns ∙ run) in
      let copied =
        subst
          (λ (t : Option Ptr × Memory ObjectMeta ListMeta).
            NamespacePointer MetaReads h.next t.1.next t.1 t.0 v)
          e y.holds in
      let g = subst (λ (t : Option Ptr × Memory ObjectMeta ListMeta). Grown h t.1) e y.grown in
      (
        NamespacePointer-IsLocal.moved h.next h1.next h.next h1.next h1 h2 q v (omega arith)
            (omega arith) copy_kept copied,
        NamespacePointer-IsLocal.moved lo hi lo hi h h3 p v (omega arith) (omega arith)
            (λ a above under.
              original_kept a (omega arith) (omega arith) ∙ g.kept a (omega arith) (omega arith))
            r,
      )
