-- ===== src/Api/Memory/Reads.antt =====
-- How pointers, maps and slices stand for plain values. Each reading goes by the addresses of its
-- range alone.
use costguard_operator.Base.{
  ◌≤◌, ◌<◌, ◌≡◌, ◌∙◌, String, List, [], ◌∷◌, Option, none, some, Map, Distinct, arith,
}
use costguard_operator.Api.Memory.{Ptr, Object, Memory}
use costguard_operator.Api.Memory.Copying.{Reading, Same, IsLocal}

module _ {ObjectMeta ListMeta : Type 0} where
  -- A value without pointers.
  abbrev pub Plain : {A : Type 0} → Reading ObjectMeta ListMeta A A
  Plain lo hi h x v = x ≡ v

  pub Plain-IsLocal :
      {A : Type 0} → IsLocal {ObjectMeta = ObjectMeta} {ListMeta = ListMeta} (Plain {A = A})
  Plain-IsLocal = record { moved = λ lo hi lo' hi' h h' x v a b same r. r }

  -- A map has each key once.
  abbrev pub Entries : Reading ObjectMeta ListMeta (Map String) (Map String)
  Entries lo hi h x v = (x ≡ v) × Distinct v

  pub Entries-IsLocal : IsLocal {ObjectMeta = ObjectMeta} {ListMeta = ListMeta} Entries
  Entries-IsLocal = record { moved = λ lo hi lo' hi' h h' x v a b same r. r }

  module _ {X V : Type 0} (object : X → Object ObjectMeta ListMeta)
      (R : Reading ObjectMeta ListMeta X V) where
    -- A pointer that is not nil.
    pub record Points (lo hi : Ptr) (h : Memory ObjectMeta ListMeta) (p : Ptr) (v : V)
        : Type 0 where
      pub content : X
      pub above : lo ≤ p
      pub below : p < hi
      pub cell : h.cell p ≡ some (object content)
      pub reads : R lo hi h content v

    pub Points-IsLocal : IsLocal R → IsLocal Points
    Points-IsLocal l = record {
      moved = λ lo hi lo' hi' h h' p v down up same r. record {
        content = r.content;
        above = omega (arith, down, r.above);
        below = omega (arith, up, r.below);
        cell = same p r.above r.below ∙ r.cell;
        reads = l.moved lo hi lo' hi' h h' r.content v down up same r.reads;
      };
    }

  module _ {X V : Type 0} (R : Reading ObjectMeta ListMeta X V) where
    -- A pointer, a map or a slice that may be nil.
    abbrev pub OrNil : Reading ObjectMeta ListMeta (Option X) (Option V)
    OrNil lo hi h none none = Unit
    OrNil lo hi h none (some v) = ⊥
    OrNil lo hi h (some x) none = ⊥
    OrNil lo hi h (some x) (some v) = R lo hi h x v

    abbrev pub Each : Reading ObjectMeta ListMeta (List X) (List V)
    Each lo hi h [] [] = Unit
    Each lo hi h [] (v ∷ vs) = ⊥
    Each lo hi h (x ∷ xs) [] = ⊥
    Each lo hi h (x ∷ xs) (v ∷ vs) = R lo hi h x v × Each lo hi h xs vs

    OrNil-moved :
        IsLocal R
        → (lo hi lo' hi' : Ptr) (h h' : Memory ObjectMeta ListMeta) (x : Option X) (v : Option V)
        → lo' ≤ lo
        → hi ≤ hi'
        → Same lo hi h h'
        → OrNil lo hi h x v
        → OrNil lo' hi' h' x v
    OrNil-moved l lo hi lo' hi' h h' none none down up same r = r
    OrNil-moved l lo hi lo' hi' h h' none (some v) down up same r = r
    OrNil-moved l lo hi lo' hi' h h' (some x) none down up same r = r
    OrNil-moved l lo hi lo' hi' h h' (some x) (some v) down up same r =
        l.moved lo hi lo' hi' h h' x v down up same r

    pub OrNil-IsLocal : IsLocal R → IsLocal OrNil
    OrNil-IsLocal l = record { moved = OrNil-moved l }

    Each-moved :
        IsLocal R
        → (lo hi lo' hi' : Ptr) (h h' : Memory ObjectMeta ListMeta) (xs : List X) (vs : List V)
        → lo' ≤ lo
        → hi ≤ hi'
        → Same lo hi h h'
        → Each lo hi h xs vs
        → Each lo' hi' h' xs vs
    Each-moved l lo hi lo' hi' h h' [] [] down up same r = r
    Each-moved l lo hi lo' hi' h h' [] (v ∷ vs) down up same r = r
    Each-moved l lo hi lo' hi' h h' (x ∷ xs) [] down up same r = r
    Each-moved l lo hi lo' hi' h h' (x ∷ xs) (v ∷ vs) down up same (r, rs) = (
      l.moved lo hi lo' hi' h h' x v down up same r,
      Each-moved l lo hi lo' hi' h h' xs vs down up same rs,
    )

    pub Each-IsLocal : IsLocal R → IsLocal Each
    Each-IsLocal l = record { moved = Each-moved l }
