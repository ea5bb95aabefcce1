-- ===== src/Api/Memory/Copying.antt =====
-- What it means that a command copies: `Reads lo hi h x v` says that in the memory `h` the struct or
-- pointer `x` stands for the plain value `v`, through addresses from `lo` up to `hi` alone.
use costguard_operator.Base.{◌≤◌, ◌<◌, ◌≡◌, refl, ap, ◌∙◌, Option, none, some, arith}
use costguard_operator.Api.Memory.{Ptr, Memory, Cmd, pure, ◌>>=◌}

-- How a type stands in memory.
abbrev pub Reading : Type 0 → Type 0 → Type 0 → Type 0 → Type 1
Reading ObjectMeta ListMeta X V = Ptr → Ptr → Memory ObjectMeta ListMeta → X → V → Type 0

module _ {ObjectMeta ListMeta : Type 0} where
  -- The two memories agree from `lo` up to `hi`.
  abbrev pub Same : Ptr → Ptr → Memory ObjectMeta ListMeta → Memory ObjectMeta ListMeta → Type 0
  Same lo hi h h' = (a : Ptr) → lo ≤ a → a < hi → h'.cell a ≡ h.cell a

  -- Nothing that was in use has changed.
  pub record Grown (h h' : Memory ObjectMeta ListMeta) : Type 0 where
    pub extended : h.next ≤ h'.next
    pub kept : Same 0 h.next h h'

  pub Grown-refl : (h : Memory ObjectMeta ListMeta) → Grown h h
  Grown-refl h = record { extended = omega arith; kept = λ a lo hi. refl }

  pub Grown-trans : {h h1 h2 : Memory ObjectMeta ListMeta} → Grown h h1 → Grown h1 h2 → Grown h h2
  Grown-trans {h} {h1} {h2} g k = record {
    extended = omega (arith, g.extended, k.extended);
    kept = λ a lo hi. k.kept a lo (omega (arith, hi, g.extended)) ∙ g.kept a lo hi;
  }

  -- The command succeeds, changes nothing that was in use, and what it returns satisfies `Q`.
  pub record Yields {A : Type 0} (Q : A → Memory ObjectMeta ListMeta → Type 0)
      (h : Memory ObjectMeta ListMeta) (r : Option (A × Memory ObjectMeta ListMeta)) : Type 0 where
    pub value : A
    pub after : Memory ObjectMeta ListMeta
    pub returns : r ≡ some (value, after)
    pub grown : Grown h after
    pub holds : Q value after

  pub Yields-pure :
      {A : Type 0} (Q : A → Memory ObjectMeta ListMeta → Type 0) (a : A)
      (h : Memory ObjectMeta ListMeta)
      → Q a h
      → Yields Q h (pure a h)
  Yields-pure Q a h q = record {
    value = a;
    after = h;
    returns = refl;
    grown = Grown-refl h;
    holds = q;
  }

  module _ {A B : Type 0} where
    pub Yields-bind :
        (P : A → Memory ObjectMeta ListMeta → Type 0) (Q : B → Memory ObjectMeta ListMeta → Type 0)
        (m : Cmd ObjectMeta ListMeta A) (f : A → Cmd ObjectMeta ListMeta B)
        (h : Memory ObjectMeta ListMeta)
        → Yields P h (m h)
        → ((a : A) (h1 : Memory ObjectMeta ListMeta) → Grown h h1 → P a h1 → Yields Q h1 (f a h1))
        → Yields Q h ((m >>= f) h)
    Yields-bind P Q m f h y k =
        let next = k y.value y.after y.grown y.holds in
        record {
          value = next.value;
          after = next.after;
          returns =
              ap
                (λ (r : Option (A × Memory ObjectMeta ListMeta)). elim r [
                  | none ↦ none
                  | some (a, h') ↦ f a h'
                ])
                y.returns
              ∙ next.returns;
          grown = Grown-trans y.grown next.grown;
          holds = next.holds;
        }

  module _ {X V : Type 0} where
    -- Reading goes by the addresses of its range alone.
    pub record IsLocal (R : Reading ObjectMeta ListMeta X V) : Type 0 where
      pub moved :
          (lo hi lo' hi' : Ptr) (h h' : Memory ObjectMeta ListMeta) (x : X) (v : V)
          → lo' ≤ lo
          → hi ≤ hi'
          → Same lo hi h h'
          → R lo hi h x v
          → R lo' hi' h' x v

    -- The copy stands for the same value, in addresses that were free, and nothing in use changes.
    pub record Copies (R : Reading ObjectMeta ListMeta X V) (copy : X → Cmd ObjectMeta ListMeta X)
        : Type 0 where
      pub copied :
          (lo hi : Ptr) (h : Memory ObjectMeta ListMeta) (x : X) (v : V)
          → hi ≤ h.next
          → R lo hi h x v
          → Yields (λ y h'. R h.next h'.next h' y v) h (copy x h)

  -- What stood in memory before it grew stands in it afterwards.
  pub carried :
      {X V : Type 0} {R : Reading ObjectMeta ListMeta X V}
      → IsLocal R
      → (lo hi : Ptr) {h h' : Memory ObjectMeta ListMeta} (x : X) (v : V) → Grown h h'
      → hi ≤ h.next
      → R lo hi h x v
      → R lo hi h' x v
  carried l lo hi {h} {h'} x v g below r =
      l.moved lo hi lo hi h h' x v (omega arith) (omega arith)
        (λ a above under. g.kept a (omega arith) (omega arith)) r

  -- A copy made early is a copy when the rest is made too.
  pub carried_copy :
      {X V : Type 0} {R : Reading ObjectMeta ListMeta X V}
      → IsLocal R
      → (start : Ptr) {h h' : Memory ObjectMeta ListMeta} (x : X) (v : V) → Grown h h'
      → R start h.next h x v
      → R start h'.next h' x v
  carried_copy l start {h} {h'} x v g r =
      l.moved start h.next start h'.next h h' x v (omega arith) g.extended
        (λ a above under. g.kept a (omega arith) under) r

  -- The copy of one part, before the rest: the rest may rely on what is copied for good.
  pub Yields-part :
      {X V B : Type 0} {R : Reading ObjectMeta ListMeta X V} {copy : X → Cmd ObjectMeta ListMeta X}
      → IsLocal R
      → Copies R copy
      → (Q : B → Memory ObjectMeta ListMeta → Type 0) → (f : X → Cmd ObjectMeta ListMeta B)
      → (lo hi : Ptr) (h h1 : Memory ObjectMeta ListMeta) (x : X) (v : V) → hi ≤ h.next
      → R lo hi h x v
      → Grown h h1
      → ((y : X) (h2 : Memory ObjectMeta ListMeta)
          → Grown h1 h2
          → ((h3 : Memory ObjectMeta ListMeta) → Grown h2 h3 → R h.next h3.next h3 y v)
          → Yields Q h2 (f y h2))
      → Yields Q h1 ((copy x >>= f) h1)
  Yields-part {R} {copy} l c Q f lo hi h h1 x v below r g rest =
      Yields-bind (λ y h2. R h1.next h2.next h2 y v) Q (copy x) f h1
        (c.copied lo hi h1 x v (omega (arith, below, g.extended)) (carried l lo hi x v g below r))
        (λ y h2 k copied. rest y h2 k (λ h3 later.
          l.moved h1.next h2.next h.next h3.next h2 h3 y v g.extended later.extended
            (λ a above under. later.kept a (omega arith) under) copied))
