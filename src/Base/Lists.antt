-- ===== src/Base/Lists.antt =====
-- Lists under native numbers, a predicate on every item, prefixes, and string-keyed maps.
use Prim.Native.Nat.{ℕ, suc, ◌+◌}
use Prim.Native.String.{String}
use mathlib.Core.Path.{◌≡◌, refl}
use mathlib.Core.Bool.{Bool, false, ◌||◌}
use mathlib.Core.Option.{Option, none, some}
use mathlib.Core.List.{List, [], ◌∷◌, ◌++◌}
use native.Mathlib.Omega.{arith}
use text.Mathlib.Text.{◌==◌}
use text.Mathlib.TextEquality.{eq_iff}
use costguard_operator.Base.Tests.{if◌then◌else◌}

module _ {ℓ} {A : Type ℓ} where
  abbrev pub length : List A → ℕ
  length [] = 0
  length (x ∷ xs) = suc (length xs)

  pub length-append : (xs ys : List A) → length (xs ++ ys) ≡ length xs + length ys
  length-append [] ys = omega arith
  length-append (x ∷ xs) ys = omega (arith, length-append xs ys)

  abbrev pub any : (A → Bool) → List A → Bool
  any test [] = false
  any test (x ∷ xs) = test x || any test xs

  -- The items that pass a test, in order.
  abbrev pub select : (A → Bool) → List A → List A
  select test [] = []
  select test (x ∷ xs) = let rest = select test xs in if test x then x ∷ rest else rest

abbrev pub All {ℓ κ} : {Item : Type ℓ} → (Item → Type κ) → List Item → Type κ
All Good [] = Unit
All Good (item ∷ later) = Good item × All Good later

module _ {ℓ κ} {Item : Type ℓ} (Good : Item → Type κ) where
  pub All-append :
      (front back : List Item) → All Good front → All Good back → All Good (front ++ back)
  All-append [] back none_bad rest_good = rest_good
  All-append (item ∷ later) back (good, more) rest_good =
      (good, All-append later back more rest_good)

pub All-map {ℓ κ μ} :
    {A : Type ℓ} (P : A → Type κ) (Q : A → Type μ) (xs : List A)
    → ((x : A) → P x → Q x)
    → All P xs
    → All Q xs
All-map P Q [] f h = tt
All-map P Q (x ∷ xs) f h = (f x h.0, All-map P Q xs f h.1)

-- A Go map as an association list: a read takes the first entry of the key.
abbrev pub Map {ℓ} : Type ℓ → Type ℓ
Map V = List (String × V)

module _ {ℓ} {Value : Type ℓ} where
  unfoldable pub lookup : String → Map Value → Option Value
  lookup key [] = none
  lookup key ((name, value) ∷ rest) =
      let later = lookup key rest in if name == key then some value else later

  pub lookup-nil : (key : String) → lookup key [] ≡ none
  unfolding lookup
  lookup-nil key = refl

  -- A map has each key once.
  abbrev pub Distinct : Map Value → Type ℓ
  Distinct [] = Unit
  Distinct ((key, value) ∷ rest) = (lookup key rest ≡ none) × Distinct rest

  -- m[k] = v
  unfoldable pub insert : String → Value → Map Value → Map Value
  insert key new [] = (key, new) ∷ []
  insert key new ((name, value) ∷ rest) =
      let later = insert key new rest in
      if name == key then (name, new) ∷ rest else (name, value) ∷ later

  -- delete(m, k)
  unfoldable pub erase : String → Map Value → Map Value
  erase key [] = []
  erase key ((name, value) ∷ rest) =
      let later = erase key rest in if name == key then later else (name, value) ∷ later

  -- maps.Copy(dst, src)
  unfoldable pub copy_into : Map Value → Map Value → Map Value
  copy_into dst [] = dst
  copy_into dst ((key, value) ∷ src) = copy_into (insert key value dst) src

  pub lookup-insert :
      (key other : String) (new : Value) (entries : Map Value)
      → lookup other (insert key new entries)
        ≡ (if key == other then some new else lookup other entries)
  unfolding lookup insert
  lookup-insert key other new [] = refl
  lookup-insert key other new ((name, value) ∷ rest) = ground (
    arith,
    lookup-insert key other new rest,
    eq_iff name key,
    eq_iff name other,
    eq_iff key other,
  )

  pub lookup-erase :
      (key other : String) (entries : Map Value)
      → lookup other (erase key entries) ≡ (if key == other then none else lookup other entries)
  unfolding lookup erase
  lookup-erase key other [] = ground arith
  lookup-erase key other ((name, value) ∷ rest) =
      ground
        (arith, lookup-erase key other rest, eq_iff name key, eq_iff name other, eq_iff key other)
