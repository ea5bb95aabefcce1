-- ===== src/Api/DeepCopy/Slices.antt =====
-- The copy of a slice, element by element.
use costguard_operator.Base.{◌≤◌, ◌≡◌, refl, sym, ap, subst, List, [], ◌∷◌, Option, some, arith}
use costguard_operator.Api.Memory.{Ptr, Object, Memory, Cmd, pure, ◌>>=◌}
use costguard_operator.Api.Memory.Copying.{
  Reading, Grown, Yields, Yields-pure, Yields-bind, IsLocal, Copies, carried, carried_copy,
}
use costguard_operator.Api.Memory.Reads.{Points, Each, Each-IsLocal}
use costguard_operator.Api.DeepCopy.{Kept, copy_each, copy_slice}
use costguard_operator.Api.DeepCopy.Parts.{load_as_lem, filled, filled-Yields}

module _ {ObjectMeta ListMeta : Type 0} where
  module _ {X V : Type 0} (R : Reading ObjectMeta ListMeta X V)
      (into : X → Cmd ObjectMeta ListMeta X) (l : IsLocal R) (c : Copies R into) where
    copy_each-Yields :
        (lo hi : Ptr) (h : Memory ObjectMeta ListMeta) (xs : List X) (vs : List V)
        → hi ≤ h.next
        → Each R lo hi h xs vs
        → Yields (λ ys h'. Each R h.next h'.next h' ys vs) h (copy_each into xs h)
    unfolding copy_each
    copy_each-Yields lo hi h [] [] below r =
        Yields-pure (λ ys h'. Each R h.next h'.next h' ys []) [] h tt
    copy_each-Yields lo hi h [] (v ∷ vs) below r = absurd r
    copy_each-Yields lo hi h (x ∷ xs) [] below r = absurd r
    copy_each-Yields lo hi h (x ∷ xs) (v ∷ vs) below (r, rs) =
        Yields-bind (λ y h'. R h.next h'.next h' y v)
          (λ ys h'. Each R h.next h'.next h' ys (v ∷ vs)) (into x)
          (λ y. copy_each into xs >>= λ ys. pure (y ∷ ys)) h (c.copied lo hi h x v below r)
          (λ y h1 g p.
            Yields-bind (λ ys h'. Each R h1.next h'.next h' ys vs)
              (λ ys h'. Each R h.next h'.next h' ys (v ∷ vs)) (copy_each into xs)
              (λ ys. pure (y ∷ ys)) h1
              (copy_each-Yields lo hi h1 xs vs (omega (arith, below, g.extended))
                (carried (Each-IsLocal R l) lo hi xs vs g below rs))
              (λ ys h2 k ps.
                Yields-pure (λ zs h'. Each R h.next h'.next h' zs (v ∷ vs)) (y ∷ ys) h2
                  (carried_copy l h.next y v k p, later h h1 h2 ys g ps)))
      where
        later :
            (h h1 h2 : Memory ObjectMeta ListMeta) (ys : List X)
            → Grown h h1
            → Each R h1.next h2.next h2 ys vs
            → Each R h.next h2.next h2 ys vs
        later h h1 h2 ys g ps =
            (Each-IsLocal R l).moved h1.next h2.next h.next h2.next h2 h2 ys vs g.extended
              (omega arith) (λ a above under. refl) ps

    pub Each-Copies : Copies (Each R) (copy_each into)
    Each-Copies = record { copied = copy_each-Yields }

  module _ {X V : Type 0} (R : Reading ObjectMeta ListMeta X V)
      (into : X → Cmd ObjectMeta ListMeta X) (l : IsLocal R) (c : Copies R into)
      (as_type : Kept ObjectMeta ListMeta (List X)) (object : List X → Object ObjectMeta ListMeta)
      (of_type : (xs : List X) → as_type (object xs) ≡ some xs) where
    pub copy_slice-Copies : Copies (Points object (Each R)) (copy_slice as_type object into)
    unfolding copy_slice
    copy_slice-Copies = record {
      copied = λ lo hi h p vs below r.
          let there = load_as_lem as_type object p r.content h (of_type r.content) r.cell in
          subst (Yields (λ q h'. Points object (Each R) h.next h'.next h' q vs) h)
            (sym (
              ap
                (λ (q : Option (List X × Memory ObjectMeta ListMeta)).
                  ((λ (t : Memory ObjectMeta ListMeta). q) >>= λ xs.
                  filled object (copy_each into xs))
                    h)
                there))
            (filled-Yields object (Each R) (copy_each into r.content) h vs (Each-IsLocal R l)
              (λ h1 g.
                copy_each-Yields R into l c lo hi h1 r.content vs (omega (arith, below, g.extended))
                  (carried (Each-IsLocal R l) lo hi r.content vs g below r.reads)));
    }
