-- ===== src/Api/DeepCopy/Parts.antt =====
-- The blocks of the deep copies: what is read through an address, a new object, what may be nil.
use costguard_operator.Base.{◌+◌, ◌≤◌, ◌≡◌, refl, sym, ap, ◌∙◌, subst, Option, none, some, arith}
use costguard_operator.Api.Memory.{
  Ptr, Object, Memory, cost_budget_struct, Cmd, pure, ◌>>=◌, ◌>>◌, new, store, load, expect,
}
use costguard_operator.Api.Memory.Copying.{
  Reading, Grown, Grown-refl, Grown-trans, Yields, Yields-pure, Yields-bind, IsLocal, Copies,
  carried,
}
use costguard_operator.Api.Memory.Writes.{
  bumped, written, written_self, written_other, Grown-written, Grown-bumped,
}
use costguard_operator.Api.Memory.Reads.{Plain, Plain-IsLocal, Points, Points-IsLocal, OrNil}
use costguard_operator.Api.DeepCopy.{
  Kept, load_as, if_set, read_and_copy, new_copy, plain_deep_copy_into, copy_cost_budget,
  as_cost_budget,
}

module _ {ObjectMeta ListMeta : Type 0} where
  pub load_as_lem :
      {A : Type 0} (as_type : Kept ObjectMeta ListMeta A) (object : A → Object ObjectMeta ListMeta)
      (p : Ptr) (x : A) (h : Memory ObjectMeta ListMeta)
      → as_type (object x) ≡ some x
      → h.cell p ≡ some (object x)
      → load_as as_type p h ≡ some (x, h)
  unfolding load_as load
  load_as_lem {A} as_type object p x h of_type there =
      ap (λ (c : Option (Object ObjectMeta ListMeta)). (loaded c >>= λ y. expect (as_type y)) h)
        there
      ∙ ap (λ (o : Option A). expect o h) of_type
    where
      loaded :
          Option (Object ObjectMeta ListMeta) → Cmd ObjectMeta ListMeta (Object ObjectMeta ListMeta)
      loaded c t = elim c [ none ↦ none | some y ↦ some (y, t) ]

  -- What a read through a pointer yields.
  load_as-Yields :
      {X V : Type 0} (as_type : Kept ObjectMeta ListMeta X)
      (object : X → Object ObjectMeta ListMeta) (R : Reading ObjectMeta ListMeta X V)
      → ((x : X) → as_type (object x) ≡ some x)
      → (lo hi : Ptr) (h : Memory ObjectMeta ListMeta) (p : Ptr) (v : V)
      → Points object R lo hi h p v
      → Yields (λ x h'. R lo hi h' x v) h (load_as as_type p h)
  load_as-Yields as_type object R of_type lo hi h p v r = record {
    value = r.content;
    after = h;
    returns = load_as_lem as_type object p r.content h (of_type r.content) r.cell;
    grown = Grown-refl h;
    holds = r.reads;
  }

  -- A new object that is filled with what a command gives.
  abbrev pub filled :
      {X : Type 0}
      → (X → Object ObjectMeta ListMeta)
      → Cmd ObjectMeta ListMeta X
      → Cmd ObjectMeta ListMeta Ptr
  filled object inner = new >>= λ q. inner >>= λ y. store q (object y) >> pure q

  pub filled-Yields :
      {X V : Type 0} (object : X → Object ObjectMeta ListMeta) (R : Reading ObjectMeta ListMeta X V)
      (inner : Cmd ObjectMeta ListMeta X) (h : Memory ObjectMeta ListMeta) (v : V)
      → IsLocal R
      → ((h1 : Memory ObjectMeta ListMeta)
          → Grown h h1
          → Yields (λ y h'. R h1.next h'.next h' y v) h1 (inner h1))
      → Yields (λ q h'. Points object R h.next h'.next h' q v) h (filled object inner h)
  unfolding new store bumped written
  filled-Yields {X} object R inner h v l fill =
      let q = h.next in
      let y = fill (bumped h) (Grown-bumped h) in
      let h3 = written q (object y.value) y.after in
      record {
        value = q;
        after = h3;
        returns =
            ap
              (λ (r : Option (X × Memory ObjectMeta ListMeta)).
                ((λ (t : Memory ObjectMeta ListMeta). r) >>= λ x. store q (object x) >> pure q)
                  (bumped h))
              y.returns;
        grown =
            Grown-written q (object y.value) (omega arith) (Grown-trans (Grown-bumped h) y.grown);
        holds = record {
          content = y.value;
          above = omega arith;
          below = omega (arith, y.grown.extended);
          cell = written_self q (object y.value) y.after;
          reads =
              l.moved (h.next + 1) y.after.next h.next y.after.next y.after h3 y.value v
                (omega arith) (omega arith)
                (λ a above below.
                  written_other q a (object y.value) y.after
                    (λ e. absurd (omega (arith, e, above))))
                y.holds;
        };
      }

  module _ {X V : Type 0} (R : Reading ObjectMeta ListMeta X V)
      (into : X → Cmd ObjectMeta ListMeta X) (l : IsLocal R) (c : Copies R into) where
    module _ (as_type : Kept ObjectMeta ListMeta X) (object : X → Object ObjectMeta ListMeta)
        (of_type : (x : X) → as_type (object x) ≡ some x) where
      read_and_copy-Yields :
          (lo hi : Ptr) (h : Memory ObjectMeta ListMeta) (p : Ptr) (v : V)
          → hi ≤ h.next
          → Points object R lo hi h p v
          → Yields (λ y h'. R h.next h'.next h' y v) h (read_and_copy as_type into p h)
      unfolding read_and_copy
      read_and_copy-Yields lo hi h p v below r =
          let there = load_as_lem as_type object p r.content h (of_type r.content) r.cell in
          subst (Yields (λ y h'. R h.next h'.next h' y v) h)
            (sym (
              ap
                (λ (q : Option (X × Memory ObjectMeta ListMeta)).
                  ((λ (t : Memory ObjectMeta ListMeta). q) >>= into) h)
                there))
            (c.copied lo hi h r.content v below r.reads)

      pub new_copy-Copies : Copies (Points object R) (new_copy as_type object into)
      unfolding new_copy
      new_copy-Copies = record {
        copied = λ lo hi h p v below r.
            filled-Yields object R (read_and_copy as_type into p) h v l (λ h1 g.
              read_and_copy-Yields lo hi h1 p v (omega (arith, below, g.extended))
                (carried (Points-IsLocal object R l) lo hi p v g below r));
      }

  -- A copy where there is something to copy.
  module _ {V : Type 0} (R : Reading ObjectMeta ListMeta Ptr V)
      (copy : Ptr → Cmd ObjectMeta ListMeta Ptr) (c : Copies R copy) where
    if_set-Yields :
        (lo hi : Ptr) (h : Memory ObjectMeta ListMeta) (p : Option Ptr) (v : Option V)
        → hi ≤ h.next
        → OrNil R lo hi h p v
        → Yields (λ q h'. OrNil R h.next h'.next h' q v) h (if_set copy p h)
    if_set-Yields lo hi h none none below r =
        Yields-pure (λ q h'. OrNil R h.next h'.next h' q none) none h tt
    if_set-Yields lo hi h none (some v) below r = absurd r
    if_set-Yields lo hi h (some p) none below r = absurd r
    if_set-Yields lo hi h (some p) (some v) below r =
        Yields-bind (λ q h'. R h.next h'.next h' q v) (λ q h'. OrNil R h.next h'.next h' q (some v))
          (copy p) (λ q. pure (some q)) h (c.copied lo hi h p v below r)
          (λ q h1 g k. record {
            value = some q;
            after = h1;
            returns = refl;
            grown = Grown-refl h1;
            holds = k;
          })

    pub if_set-Copies : Copies (OrNil R) (if_set copy)
    if_set-Copies = record { copied = if_set-Yields }

  pub Plain-Copies :
      {A : Type 0}
      → Copies {ObjectMeta = ObjectMeta} {ListMeta = ListMeta} (Plain {A = A}) plain_deep_copy_into
  unfolding plain_deep_copy_into
  Plain-Copies = record { copied = λ lo hi h x v below r. Yields-pure (λ y h'. y ≡ v) x h r }

  pub copy_cost_budget-Copies :
      Copies {ObjectMeta = ObjectMeta} {ListMeta = ListMeta}
        (Points cost_budget_struct Plain)
        copy_cost_budget
  unfolding copy_cost_budget
  copy_cost_budget-Copies = record {
    copied = λ lo hi h p v below r.
        filled-Yields cost_budget_struct Plain (load_as as_cost_budget p) h v Plain-IsLocal (λ h1 g.
          load_as-Yields as_cost_budget cost_budget_struct Plain (λ x. refl) lo hi h1 p v
            (carried (Points-IsLocal cost_budget_struct Plain Plain-IsLocal) lo hi p v g below r));
  }
