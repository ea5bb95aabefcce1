-- ===== src/Controller/Ensure/Merging.antt =====
-- The labels and annotations of an ensured Namespace.
use costguard_operator.Base.{
  ◌≡◌, refl, subst, ap, ◌∙◌, String, Bool, true, [], ◌∷◌, Option, none, some, Map, lookup, insert,
  copy_into, Distinct, lookup-insert, arith, if◌then◌else◌, ◌==◌, eq_iff, eq_refl,
}
use costguard_operator.Controller.Scale.{map_or_empty}
use costguard_operator.Controller.Ensure.{merge_map}

-- The value of a key in `desired` where it has one, else the value that was there.
abbrev pub either : Option String → Option String → Option String
either none kept = kept
either (some value) kept = some value

is_equal : (a b : String) → (a == b) ≡ true → a ≡ b
is_equal a b e = ground (arith, eq_iff a b)

lookup-copy_into :
    (key : String) (dst src : Map String)
    → Distinct src
    → lookup key (copy_into dst src) ≡ either (lookup key src) (lookup key dst)
unfolding lookup copy_into
lookup-copy_into key dst [] distinct = refl
lookup-copy_into key dst ((name, value) ∷ rest) (fresh, distinct) =
    lookup-copy_into key (insert name value dst) rest distinct
    ∙ ap (either (lookup key rest)) (lookup-insert name key value dst)
    ∙ chosen (name == key) (lookup key rest) value (lookup key dst)
        (λ same. subst (λ (k : String). lookup k rest ≡ none) (is_equal name key same) fresh)
  where
    chosen :
        (b : Bool) (later : Option String) (v : String) (kept : Option String)
        → (b ≡ true → later ≡ none)
        → either later (if b then some v else kept) ≡ either (if b then some v else later) kept
    chosen b later v kept h = ground arith

-- Merging keeps every label that is not desired, sets each desired one to its value, and changes
-- nothing where none are desired. The desired labels have distinct keys.
pub merged :
    (desired : Map String) (current : Option (Map String)) (key : String)
    → Distinct desired
    → (lookup key (map_or_empty (merge_map (some desired) current))
        ≡ either (lookup key desired) (lookup key (map_or_empty current)))
      × (merge_map none current ≡ current)
unfolding merge_map
merged desired current key distinct =
    (lookup-copy_into key (map_or_empty current) desired distinct, refl)

insert_same :
    (key value : String) (m : Map String) → lookup key m ≡ some value → insert key value m ≡ m
unfolding lookup insert
insert_same key value [] h = ground arith
insert_same key value ((name, old) ∷ m) h = ground (arith, insert_same key value m, eq_iff name key)

-- Every entry of `desired` is what `m` has at its key.
abbrev Agrees : Map String → Map String → Type 0
Agrees m [] = Unit
Agrees m ((key, value) ∷ desired) = (lookup key m ≡ some value) × Agrees m desired

copy_into-Agrees : (dst src : Map String) → Distinct src → Agrees (copy_into dst src) src
unfolding copy_into
copy_into-Agrees dst [] distinct = tt
copy_into-Agrees dst ((key, value) ∷ src) (fresh, distinct) = (
  lookup-copy_into key (insert key value dst) src distinct
      ∙ ap (λ (o : Option String). either o (lookup key (insert key value dst))) fresh
      ∙ lookup-insert key key value dst
      ∙ ap (λ (b : Bool). if b then some value else lookup key dst) (eq_refl key),
  copy_into-Agrees (insert key value dst) src distinct,
)

copied_already : (m desired : Map String) → Agrees m desired → copy_into m desired ≡ m
unfolding copy_into
copied_already m [] h = refl
copied_already m ((key, value) ∷ desired) (h, hs) =
    ap (λ (n : Map String). copy_into n desired) (insert_same key value m h)
    ∙ copied_already m desired hs

-- Desired labels, if any, have each key once.
abbrev pub DesiredDistinct : Option (Map String) → Type 0
DesiredDistinct none = Unit
DesiredDistinct (some desired) = Distinct desired

-- A second merge of the same changes nothing.
pub merge_map-merge_map :
    (desired current : Option (Map String))
    → DesiredDistinct desired
    → merge_map desired (merge_map desired current) ≡ merge_map desired current
unfolding merge_map
merge_map-merge_map none current distinct = refl
merge_map-merge_map (some desired) current distinct = ap some (
    copied_already (copy_into (map_or_empty current) desired) desired
      (copy_into-Agrees (map_or_empty current) desired distinct))
