-- ===== src/Go/Duration.antt =====
-- time.ParseDuration over the code points of a text. A Duration is an int64 number of nanoseconds.
-- Go reads each element in three loops (digits, fraction, unit); here one pass over the text
-- keeps the loop that it is in as a mode, so that the recursion is structural. A failed parse is
-- `none`: the callers test only whether there is an error. The one float computation, that of the
-- fraction of a unit, is a parameter.
use costguard_operator.Base.{
  ℕ, ◌+◌, ◌-◌, ◌*◌, ◌/◌, ◌%◌, ◌^◌, ◌≡◌, refl, String, Bool, true, false, ◌&&◌, ◌||◌, List, [], ◌∷◌,
  ◌++◌, Option, none, some, ltb, eqb, if◌then◌else◌, ℤ, pos,
}
use costguard_operator.Go.Text.{codes}
use costguard_operator.Go.Strconv.{is_digit, negate}

abbrev pub nanosecond : ℕ
nanosecond = 1

abbrev pub second : ℕ
second = 1000000000

abbrev pub minute : ℕ
minute = 60000000000

abbrev pub hour : ℕ
hour = 3600000000000

abbrev pub max_int64 : ℕ
max_int64 = 9223372036854775807

-- 1 << 63
abbrev max_magnitude : ℕ
max_magnitude = 9223372036854775808

abbrev same : List ℕ → List ℕ → Bool
same [] [] = true
same (a ∷ s) (b ∷ t) = eqb a b && same s t
same _ _ = false

-- unitMap
unit_size : List ℕ → Option ℕ
unit_size u =
    if same u (codes "ns")
    then some nanosecond
    else if same u (codes "us") || same u (0xB5 ∷ b's' ∷ []) || same u (0x3BC ∷ b's' ∷ [])
    then some 1000
    else if same u (codes "ms")
    then some 1000000
    else if same u (codes "s")
    then some second
    else if same u (codes "m")
    then some minute
    else if same u (codes "h")
    then some hour
    else none

-- Where the pass stands in an element: the digits before the point, those behind it (`f` and the
-- number `k` of digits in it; `full` once `f` would overflow), or the unit's letters.
pub data Mode : Type 0 where
  whole : (v : ℕ) (any_digit : Bool) → Mode
  fraction : (v f k : ℕ) (full any_digit : Bool) → Mode
  unit : (v f k : ℕ) (letters : List ℕ) → Mode

abbrev fresh : Mode
fresh = whole 0 false

-- One digit of leadingInt.
whole_digit : ℕ → ℕ → Option ℕ
whole_digit v digit =
    if ltb (max_magnitude / 10) v
    then none
    else if ltb max_magnitude (v * 10 + digit)
    then none
    else some (v * 10 + digit)

-- One digit of leadingFraction.
fraction_digit : ℕ → ℕ → ℕ → ℕ → Bool → Mode
fraction_digit v f k digit full =
    if full || ltb (max_int64 / 10) f || ltb max_magnitude (f * 10 + digit)
    then fraction v f k true true
    else fraction v (f * 10 + digit) (k + 1) false true

module _ (fraction_of : ℕ → ℕ → ℕ → ℕ) where
  -- `fraction_of f size k` is uint64(float64(f) * (float64(size) / scale)), scale being ten
  -- multiplied k times. The sum is a uint64.
  add_element : ℕ → ℕ → ℕ → ℕ → ℕ → Option ℕ
  add_element total v f k size =
      if ltb (max_magnitude / size) v
      then none
      else if ltb 0 f && ltb max_magnitude (v * size + fraction_of f size k)
      then none
      else let value = (if ltb 0 f then v * size + fraction_of f size k else v * size) in
        let sum = (total + value) % 2 ^ 64 in if ltb max_magnitude sum then none else some sum

  close_element : ℕ → ℕ → ℕ → ℕ → Option ℕ → Option ℕ
  close_element total v f k none = none
  close_element total v f k (some size) = add_element total v f k size

  reopen : Option ℕ → Mode → Option (ℕ × Mode)
  reopen none mode = none
  reopen (some total) mode = some (total, mode)

  whole_next : ℕ → Option ℕ → Option (ℕ × Mode)
  whole_next total none = none
  whole_next total (some v) = some (total, whole v true)

  -- What one character does.
  step : ℕ → Mode → ℕ → Option (ℕ × Mode)
  unfolding whole_digit fraction_digit add_element close_element reopen whole_next unit_size
  step total (whole v any_digit) c =
      if is_digit c
      then whole_next total (whole_digit v (c - b'0'))
      else if eqb c b'.'
      then some (total, fraction v 0 0 false any_digit)
      else if any_digit
      then some (total, unit v 0 0 (c ∷ []))
      else none
  step total (fraction v f k full any_digit) c =
      if is_digit c
      then some (total, fraction_digit v f k (c - b'0') full)
      else if any_digit && (if eqb c b'.' then false else true)
      then some (total, unit v f k (c ∷ []))
      else none
  step total (unit v f k letters) c =
      if is_digit c
      then reopen (close_element total v f k (unit_size letters)) (whole (c - b'0') true)
      else if eqb c b'.'
      then reopen (close_element total v f k (unit_size letters)) (fraction 0 0 0 false false)
      else some (total, unit v f k (letters ++ c ∷ []))

  finish : ℕ → Mode → Option ℕ
  finish total (unit v f k letters) = close_element total v f k (unit_size letters)
  finish total _ = none

  elements : ℕ → Mode → List ℕ → Option ℕ
  unfolding step finish
  elements total mode [] = finish total mode
  elements total mode (c ∷ s) = elim (step total mode c) [
    | none ↦ none
    | some (total', mode') ↦ elements total' mode' s
  ]

  -- What follows the sign.
  magnitude : List ℕ → Option ℕ
  unfolding elements
  magnitude [] = none
  magnitude (c ∷ s) = if same (c ∷ s) (b'0' ∷ []) then some 0 else elements 0 fresh (c ∷ s)

  negative : Option ℕ → Option ℤ
  negative none = none
  negative (some d) = some (negate d)

  positive : Option ℕ → Option ℤ
  positive none = none
  positive (some d) = if ltb max_int64 d then none else some (pos d)

  signed : List ℕ → Option ℤ
  unfolding magnitude negative positive
  signed [] = none
  signed (c ∷ s) =
      if eqb c b'-'
      then negative (magnitude s)
      else if eqb c b'+'
      then positive (magnitude s)
      else positive (magnitude (c ∷ s))

  -- time.ParseDuration
  unfoldable pub parse_duration : String → Option ℤ
  unfolding signed
  parse_duration s = signed (codes s)

no_fraction : ℕ → ℕ → ℕ → ℕ
no_fraction f size k = f * size / 10 ^ k

mixed_units : parse_duration no_fraction "1h15m30.5s" ≡ some (pos 4530500000000)
unfolding parse_duration no_fraction
mixed_units = refl

signs : parse_duration no_fraction "-2m" ≡ some (negate 120000000000)
unfolding parse_duration
signs = refl

refused :
    (parse_duration no_fraction "" ≡ none)
    × (parse_duration no_fraction "10" ≡ none)
    × (parse_duration no_fraction "." ≡ none)
    × (parse_duration no_fraction "3x" ≡ none)
    × (parse_duration no_fraction "2562048h" ≡ none)
    × (parse_duration no_fraction "+0" ≡ some (pos 0))
unfolding parse_duration
refused = (refl, refl, refl, refl, refl, refl)
