-- ===== src/Go/Text/Split.antt =====
-- strings.Split takes a text apart at a separator, and the parts with the separator between them are
-- the text again.
use Prim.Native.Char.{Char, code}
use Prim.Native.String.{◌++◌}
use Prim.Native.String.append
use text.Mathlib.TextEquality.{Char-path}
use costguard_operator.Base.{
  ◌≡◌, refl, sym, ap, ◌∙◌, subst, ℕ, String, Bool, true, false, ◌||◌, List, [], ◌∷◌, eqb, arith,
  inl, inr, Bool-cases, if◌then◌else◌,
}
use costguard_operator.Go.Text.{push_head, split}

abbrev pub has_char : ℕ → String → Bool
has_char c String.[] = false
has_char c (String.◌∷◌ d s) = eqb (code d) c || has_char c s

pub or_left : (b c : Bool) → (b || c) ≡ false → b ≡ false
or_left b c h = ground arith

pub or_right : (b c : Bool) → (b || c) ≡ false → c ≡ false
or_right b c h = ground arith

eqb_eq : (a b : ℕ) → eqb a b ≡ true → a ≡ b
eqb_eq a b h = ground arith

-- A text without the separator is its only part.
pub split_last : (sep : ℕ) (s : String) → has_char sep s ≡ false → split sep s ≡ s ∷ []
unfolding split
split_last sep String.[] lacks = refl
split_last sep (String.◌∷◌ c s) lacks =
    ap (λ (b : Bool). if b then "" ∷ split sep s else push_head c (split sep s))
      (or_left (eqb (code c) sep) (has_char sep s) lacks)
    ∙ ap (push_head c) (split_last sep s (or_right (eqb (code c) sep) (has_char sep s) lacks))

-- What stands before the first separator is the first part.
pub split_before :
    (sep : Char) (s rest : String)
    → has_char (code sep) s ≡ false
    → split (code sep) (s ++ String.◌∷◌ sep rest) ≡ s ∷ split (code sep) rest
unfolding split
split_before sep String.[] rest lacks =
    ap (split (code sep)) (append.nil (String.◌∷◌ sep rest))
    ∙ ap
        (λ (b : Bool).
          if b then "" ∷ split (code sep) rest else push_head sep (split (code sep) rest))
        (same_code (code sep))
  where
    same_code : (n : ℕ) → eqb n n ≡ true
    same_code n = ground arith
split_before sep (String.◌∷◌ c s) rest lacks =
    let tail = split (code sep) (s ++ String.◌∷◌ sep rest) in
    ap (split (code sep)) (append.cons c s (String.◌∷◌ sep rest))
    ∙ ap (λ (b : Bool). if b then "" ∷ tail else push_head c tail)
        (or_left (eqb (code c) (code sep)) (has_char (code sep) s) lacks)
    ∙ ap (push_head c)
        (split_before sep s rest (or_right (eqb (code c) (code sep)) (has_char (code sep) s) lacks))

-- The parts with the separator between them.
abbrev pub join : Char → List String → String
join sep [] = ""
join sep (part ∷ []) = part
join sep (part ∷ (part' ∷ parts)) = part ++ String.◌∷◌ sep (join sep (part' ∷ parts))

abbrev IsCons : List String → Type 0
IsCons [] = ⊥
IsCons (part ∷ parts) = Unit

push_head-IsCons : (c : Char) (parts : List String) → IsCons (push_head c parts)
push_head-IsCons c [] = tt
push_head-IsCons c (part ∷ parts) = tt

split-IsCons : (sep : ℕ) (s : String) → IsCons (split sep s)
unfolding split
split-IsCons sep String.[] = tt
split-IsCons sep (String.◌∷◌ c s) = elim (Bool-cases (eqb (code c) sep)) [
  | inl here ↦
      subst IsCons
        (sym (ap (λ (b : Bool). if b then "" ∷ split sep s else push_head c (split sep s)) here)) tt
  | inr other ↦
      subst IsCons
        (sym (ap (λ (b : Bool). if b then "" ∷ split sep s else push_head c (split sep s)) other))
        (push_head-IsCons c (split sep s))
]

join-push_head :
    (sep c : Char) (parts : List String)
    → join sep (push_head c parts) ≡ String.◌∷◌ c (join sep parts)
join-push_head sep c [] = refl
join-push_head sep c (part ∷ []) = refl
join-push_head sep c (part ∷ (part' ∷ parts)) =
    append.cons c part (String.◌∷◌ sep (join sep (part' ∷ parts)))

join-empty :
    (sep : Char) (parts : List String)
    → IsCons parts
    → join sep ("" ∷ parts) ≡ String.◌∷◌ sep (join sep parts)
join-empty sep [] h = elim h [ ]
join-empty sep (part ∷ parts) h = append.nil (String.◌∷◌ sep (join sep (part ∷ parts)))

pub join-split : (sep : Char) (s : String) → join sep (split (code sep) s) ≡ s
unfolding split
join-split sep String.[] = refl
join-split sep (String.◌∷◌ c s) =
    let parts = split (code sep) s in
    elim (Bool-cases (eqb (code c) (code sep))) [
      | inl here ↦
          ap (λ (b : Bool). join sep (if b then "" ∷ parts else push_head c parts)) here
          ∙ join-empty sep parts (split-IsCons (code sep) s)
          ∙ ap (λ (t : String). String.◌∷◌ sep t) (join-split sep s)
          ∙ ap (λ (d : Char). String.◌∷◌ d s)
              (sym (Char-path c sep (eqb_eq (code c) (code sep) here)))
      | inr other ↦
          ap (λ (b : Bool). join sep (if b then "" ∷ parts else push_head c parts)) other
          ∙ join-push_head sep c parts
          ∙ ap (λ (t : String). String.◌∷◌ c t) (join-split sep s)
    ]
