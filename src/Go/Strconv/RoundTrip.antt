-- ===== src/Go/Strconv/RoundTrip.antt =====
-- Printing and parsing the decimal text of an integer.
use costguard_operator.Base.{
  ℕ, zero, suc, ◌+◌, ◌/◌, ◌%◌, ◌≤◌, ◌<◌, ◌≡◌, refl, code, String, some, arith, ℤ, pos, negsuc, ◌≤ℤ◌,
}
use costguard_operator.Go.Strconv.{
  max_int32, digit_char, digits, format_nat, format_int, parse_digits, parse_nat, parse_int32,
}

code-digit_char : (d : ℕ) → d < 10 → code (digit_char d) ≡ 48 + d
code-digit_char zero h = refl
code-digit_char (suc zero) h = refl
code-digit_char (suc (suc zero)) h = refl
code-digit_char (suc (suc (suc zero))) h = refl
code-digit_char (suc (suc (suc (suc zero)))) h = refl
code-digit_char (suc (suc (suc (suc (suc zero))))) h = refl
code-digit_char (suc (suc (suc (suc (suc (suc zero)))))) h = refl
code-digit_char (suc (suc (suc (suc (suc (suc (suc zero))))))) h = refl
code-digit_char (suc (suc (suc (suc (suc (suc (suc (suc zero)))))))) h = refl
code-digit_char (suc (suc (suc (suc (suc (suc (suc (suc (suc zero))))))))) h = refl
code-digit_char (suc (suc (suc (suc (suc (suc (suc (suc (suc (suc d)))))))))) h =
    absurd (omega arith)

-- Reading the last digit of `n` after the digits before it gives `n`.
parse_digits_last :
    (n : ℕ) (out : String)
    → parse_digits (String.◌∷◌ (digit_char (n % 10)) out) (n / 10) ≡ parse_digits out n
unfolding parse_digits
parse_digits_last n out = ground (arith, code-digit_char (n % 10) (omega arith))

parse_digits-digits :
    (fuel n : ℕ) (out : String) → n < fuel → parse_digits (digits fuel n out) 0 ≡ parse_digits out n
unfolding digits
parse_digits-digits zero n out h = elim h [ ]
parse_digits-digits (suc fuel) n out h = ground (
  arith,
  parse_digits_last n out,
  parse_digits-digits fuel (n / 10) (String.◌∷◌ (digit_char (n % 10)) out),
)

-- A text that begins with a digit, so that no sign is read from it.
abbrev BeginsWithDigit : String → Type 0
BeginsWithDigit String.[] = ⊥
BeginsWithDigit (String.◌∷◌ c s) = 48 ≤ code c

digits-BeginsWithDigit : (fuel n : ℕ) (out : String) → BeginsWithDigit (digits (suc fuel) n out)
unfolding digits
digits-BeginsWithDigit zero n out = ground (arith, code-digit_char (n % 10) (omega arith))
digits-BeginsWithDigit (suc fuel) n out = ground (
  arith,
  code-digit_char (n % 10) (omega arith),
  digits-BeginsWithDigit fuel (n / 10) (String.◌∷◌ (digit_char (n % 10)) out),
)

parse_nat_of_BeginsWithDigit : (s : String) → BeginsWithDigit s → parse_nat s ≡ parse_digits s 0
unfolding parse_nat
parse_nat_of_BeginsWithDigit String.[] h = absurd h
parse_nat_of_BeginsWithDigit (String.◌∷◌ c s) h = refl

parse_nat-format_nat : (n : ℕ) → parse_nat (format_nat n) ≡ some n
unfolding format_nat parse_digits
parse_nat-format_nat n =
    rw (parse_nat_of_BeginsWithDigit (digits (suc n) n "") (digits-BeginsWithDigit n n ""))
      (parse_digits-digits (suc n) n "" (omega arith))

parse_int32_unsigned :
    (s : String) {n : ℕ}
    → BeginsWithDigit s
    → parse_nat s ≡ some n
    → n ≤ max_int32
    → parse_int32 s ≡ some (pos n)
unfolding parse_int32
parse_int32_unsigned String.[] b e h = absurd b
parse_int32_unsigned (String.◌∷◌ c s) b e h = ground arith

-- The int32 range.
abbrev pub IsInt32 : ℤ → Type 0
IsInt32 z = (negsuc max_int32 ≤ℤ z) × (z ≤ℤ pos max_int32)

-- Parsing the decimal text of an int32 gives it back.
pub parse_int32-format_int : (z : ℤ) → IsInt32 z → parse_int32 (format_int z) ≡ some z
unfolding format_int parse_int32
parse_int32-format_int (pos n) h =
    parse_int32_unsigned (format_nat n) (digits-BeginsWithDigit n n "") (parse_nat-format_nat n)
      (omega arith)
parse_int32-format_int (negsuc n) h = ground (arith, parse_nat-format_nat (suc n))
