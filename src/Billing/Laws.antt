-- ===== src/Billing/Laws.antt =====
-- What reaches BigQuery: the table's name stands in the text of the SQL, between backquotes.
use costguard_operator.Base.{
  ◌≡◌, refl, ap, sym, subst, ◌⊎◌, inl, inr, Bool, true, false, ◌&&◌, ◌||◌, ℕ, String, code, List,
  [], ◌∷◌, arith, if◌then◌else◌, eqb, ◌==◌, Bool-cases, ◌-ℤ◌, ◌+ℤ◌, ◌≤ℤ◌,
}
use mathlib.Core.Path.{ap₂}
use costguard_operator.Go.Text.{trim_space, split}
use costguard_operator.Go.Text.Split.{has_char}
use costguard_operator.Go.Time.{Duration, min_int64}
use costguard_operator.Kube.{Result, ok, err}
use costguard_operator.Billing.{
  is_part_char, all_part_chars, matches_table_part, TableRef, checked_parts, validate_table_ref,
  SpendQuery, BigQuery, query_location,
}

-- A part of the table's name: not empty, and without the characters that would end it.
pub record SafePart (part : String) : Type 0 where
  pub no_quote : has_char b'`' part ≡ false
  pub no_dot : has_char b'.' part ≡ false
  pub no_space : has_char b' ' part ≡ false
  pub matches : matches_table_part part ≡ true

pub and_left : (b c : Bool) → (b && c) ≡ true → b ≡ true
and_left b c h = ground arith

pub and_right : (b c : Bool) → (b && c) ≡ true → c ≡ true
and_right b c h = ground arith

eqb_eq : (a b : ℕ) → eqb a b ≡ true → a ≡ b
eqb_eq a b h = ground arith

differs : {a b : ℕ} → a ≡ b → is_part_char b ≡ false → is_part_char a ≡ true → ⊥
differs p out is = ground arith

abbrev IsOk : {E A : Type 0} → Result E A → Type 0
IsOk (ok a) = Unit
IsOk (err e) = ⊥

abbrev value_or : {E A : Type 0} → A → Result E A → A
value_or d (ok a) = a
value_or d (err e) = d

ok_inj : {E A : Type 0} {a b : A} → ◌≡◌ {A = Result E A} (ok a) (ok b) → a ≡ b
ok_inj {a} p = ap (value_or a) p

pub not_ok : {E A : Type 0} {e : E} {a : A} → err e ≡ ok a → ⊥
not_ok p = subst IsOk (sym p) tt

pub of_test :
    {E A : Type 0} (b : Bool) (x : A) (e : E) (t : A)
    → (if b then ok x else err e) ≡ ok t
    → (b ≡ true) × (x ≡ t)
of_test true x e t p = (refl, ok_inj p)
of_test false x e t p = absurd (not_ok p)

lacks :
    (c : ℕ) (s : String) → is_part_char c ≡ false → all_part_chars s ≡ true → has_char c s ≡ false
unfolding all_part_chars
lacks c String.[] out h = refl
lacks c (String.◌∷◌ d s) out h = elim (Bool-cases (eqb (code d) c)) [
  | inl same ↦
      absurd (
        differs (eqb_eq (code d) c same) out
          (and_left (is_part_char (code d)) (all_part_chars s) h))
  | inr other ↦
      ap₂ (λ (x y : Bool). x || y) other
        (lacks c s out (and_right (is_part_char (code d)) (all_part_chars s) h))
]

pub all_of_match : (s : String) → matches_table_part s ≡ true → all_part_chars s ≡ true
unfolding matches_table_part all_part_chars
all_of_match String.[] h = refl
all_of_match (String.◌∷◌ c s) h = h

safe_part : (s : String) → matches_table_part s ≡ true → SafePart s
safe_part s h = record {
  no_quote = lacks b'`' s refl (all_of_match s h);
  no_dot = lacks b'.' s refl (all_of_match s h);
  no_space = lacks b' ' s refl (all_of_match s h);
  matches = h;
}

abbrev pub SafeTable : TableRef → Type 0
SafeTable t = SafePart t.project × SafePart t.dataset × SafePart t.table

checked_parts-SafeTable :
    (parts : List String) (t : TableRef) → checked_parts parts ≡ ok t → SafeTable t
unfolding checked_parts
checked_parts-SafeTable [] t e = absurd (not_ok e)
checked_parts-SafeTable (a ∷ []) t e = absurd (not_ok e)
checked_parts-SafeTable (a ∷ b ∷ []) t e = absurd (not_ok e)
checked_parts-SafeTable (a ∷ b ∷ c ∷ d ∷ l) t e = absurd (not_ok e)
checked_parts-SafeTable (a ∷ b ∷ c ∷ []) t e =
    let (good, same) =
      of_test (matches_table_part a && (matches_table_part b && matches_table_part c)) _ _ t e in
    let later =
      and_right (matches_table_part a) (matches_table_part b && matches_table_part c) good in
    subst SafeTable same (
      safe_part a
          (and_left (matches_table_part a) (matches_table_part b && matches_table_part c) good),
      safe_part b (and_left (matches_table_part b) (matches_table_part c) later),
      safe_part c (and_right (matches_table_part b) (matches_table_part c) later),
    )

-- A table reference is accepted only as three parts, each of which is a name without a dot, a
-- space or the backquote that ends the name in the SQL text.
pub validated-SafeTable :
    (table_ref : String) (t : TableRef) → validate_table_ref table_ref ≡ ok t → SafeTable t
unfolding validate_table_ref
validated-SafeTable table_ref t e = checked_parts-SafeTable (split b'.' (trim_space table_ref)) t e

module _ {F S : Type 0} (zero_cost : F) (client : BigQuery F S) where
  -- The query that the arguments stand for, with the table's name checked.
  pub record IsQuery (cluster_name namespace location : String) (lookback : Duration) (s : S)
      (q : SpendQuery) : Type 0 where
    pub safe : SafeTable q.from_table
    pub named_cluster : (q.cluster ≡ cluster_name) × (cluster_name == "" ≡ false)
    pub named_namespace : (q.namespace ≡ namespace) × (namespace == "" ≡ false)
    pub from_time :
        (q.start_ts ≡ (client.now s).0 -ℤ lookback)
        ⊎ ((lookback ≤ℤ min_int64) × (q.start_ts ≡ (client.now s).0 +ℤ min_int64))
    pub located : q.location ≡ query_location location
