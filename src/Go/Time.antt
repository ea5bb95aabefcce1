-- ===== src/Go/Time.antt =====
-- time.Time and its arithmetic. A Time is the number of nanoseconds since year 1, so that Go's zero
-- Time is 0; a Duration is a number of nanoseconds. `Add` is exact (the program's times are far
-- from the ends of Go's range of years); `Sub` saturates at the ends of int64.
use costguard_operator.Base.{
  ◌≡◌, ap, ◌∙◌, ◌+◌, ◌⊎◌, inl, inr, Bool, true, ◌&&◌, Bool-cases, if◌then◌else◌, arith, pos_part,
  neg_part, eq_of_parts, +ℤ_parts, ℤ, pos, negsuc, ◌+ℤ◌, ◌-ℤ◌, ◌≤ℤ◌, ltb_ℤ, leb_ℤ, min_ℤ, max_ℤ,
  -ℤ_parts,
}
use costguard_operator.Go.Duration.{max_int64}

abbrev pub Time : Type 0
Time = ℤ

abbrev pub Duration : Type 0
Duration = ℤ

abbrev pub add : Time → Duration → Time
add t d = t +ℤ d

abbrev pub before : Time → Time → Bool
before t u = ltb_ℤ t u

abbrev pub after : Time → Time → Bool
after t u = ltb_ℤ u t

abbrev pub is_zero : Time → Bool
is_zero t = leb_ℤ t (pos 0) && leb_ℤ (pos 0) t

unfoldable pub sub : Time → Time → Duration
sub t u = min_ℤ (max_ℤ (t -ℤ u) (negsuc max_int64)) (pos max_int64)

-- Within int64 the difference is exact.
pub sub_exact :
    (t u : Time) → negsuc max_int64 ≤ℤ (t -ℤ u) → (t -ℤ u) ≤ℤ pos max_int64 → sub t u ≡ t -ℤ u
unfolding sub
sub_exact t u lo hi = ground arith

-- The sign of a difference is right even where it saturates.
pub sub_pos : (t u : Time) → ltb_ℤ u t ≡ ltb_ℤ (pos 0) (sub t u)
unfolding sub
sub_pos t u = ground (arith, -ℤ_parts t u)

-- The least int64, whose negation wraps to itself.
abbrev pub min_int64 : Duration
min_int64 = negsuc max_int64

-- -d
unfoldable pub negated : Duration → Duration
negated d = if leb_ℤ d min_int64 then min_int64 else pos 0 -ℤ d

-- t.Add(-d) is d before t, unless the negation wraps.
pub add-negated :
    (t : Time) (d : Duration)
    → (add t (negated d) ≡ t -ℤ d) ⊎ ((d ≤ℤ min_int64) × (add t (negated d) ≡ add t min_int64))
unfolding negated
add-negated t d = elim (Bool-cases (leb_ℤ d min_int64)) [
  | inl least ↦
      inr (of_test least, ap (λ (b : Bool). add t (if b then min_int64 else pos 0 -ℤ d)) least)
  | inr other ↦ inl (
      ap (λ (b : Bool). add t (if b then min_int64 else pos 0 -ℤ d)) other
      ∙ eq_of_parts (add t (pos 0 -ℤ d)) (t -ℤ d) parts)
]
  where
    of_test : leb_ℤ d min_int64 ≡ true → d ≤ℤ min_int64
    of_test h = ground arith

    parts :
        pos_part (add t (pos 0 -ℤ d)) + neg_part (t -ℤ d)
        ≡ pos_part (t -ℤ d) + neg_part (add t (pos 0 -ℤ d))
    parts = omega (arith, +ℤ_parts t (pos 0 -ℤ d), -ℤ_parts t d, -ℤ_parts (pos 0) d)
