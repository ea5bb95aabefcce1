-- ===== src/Go/Strconv.antt =====
-- strconv.FormatInt(n, 10) and strconv.ParseInt(s, 10, 32). A failed parse is `none`: the callers
-- test only whether there is an error.
pub mod RoundTrip
use costguard_operator.Base.{
  ℕ, zero, suc, ◌+◌, ◌-◌, ◌*◌, ◌/◌, ◌%◌, Char, code, String, Bool, ◌&&◌, Option, none, some, leb,
  eqb, if◌then◌else◌, ℤ, pos, negsuc,
}

abbrev pub max_int32 : ℕ
max_int32 = 2147483647

abbrev pub digit_char : ℕ → Char
digit_char zero = "0"
digit_char (suc zero) = "1"
digit_char (suc (suc zero)) = "2"
digit_char (suc (suc (suc zero))) = "3"
digit_char (suc (suc (suc (suc zero)))) = "4"
digit_char (suc (suc (suc (suc (suc zero))))) = "5"
digit_char (suc (suc (suc (suc (suc (suc zero)))))) = "6"
digit_char (suc (suc (suc (suc (suc (suc (suc zero))))))) = "7"
digit_char (suc (suc (suc (suc (suc (suc (suc (suc zero)))))))) = "8"
digit_char _ = "9"

-- The digits of `n` in front of `out`. Each round divides by ten, so fuel above `n` is enough.
digits : ℕ → ℕ → String → String
digits zero n out = out
digits (suc fuel) n out =
    let shown = String.◌∷◌ (digit_char (n % 10)) out in
    let rest = digits fuel (n / 10) shown in if leb 10 n then rest else shown

pub format_nat : ℕ → String
unfolding digits
format_nat n = digits (suc n) n ""

-- strconv.FormatInt(n, 10)
unfoldable pub format_int : ℤ → String
unfolding format_nat
format_int (pos n) = format_nat n
format_int (negsuc n) = String.◌∷◌ "-" (format_nat (suc n))

abbrev pub is_digit : ℕ → Bool
is_digit c = leb b'0' c && leb c b'9'

parse_digits : String → ℕ → Option ℕ
parse_digits String.[] n = some n
parse_digits (String.◌∷◌ c s) n =
    let rest = parse_digits s (n * 10 + (code c - b'0')) in if is_digit (code c) then rest else none

-- one digit or more
parse_nat : String → Option ℕ
unfolding parse_digits
parse_nat String.[] = none
parse_nat (String.◌∷◌ c s) = parse_digits (String.◌∷◌ c s) 0

abbrev pub negate : ℕ → ℤ
negate zero = pos 0
negate (suc n) = negsuc n

-- the range of an int32
bounded_pos : Option ℕ → Option ℤ
bounded_pos none = none
bounded_pos (some n) = if leb n max_int32 then some (pos n) else none

bounded_neg : Option ℕ → Option ℤ
bounded_neg none = none
bounded_neg (some n) = if leb n (max_int32 + 1) then some (negate n) else none

-- strconv.ParseInt(s, 10, 32)
unfoldable pub parse_int32 : String → Option ℤ
unfolding parse_nat bounded_pos bounded_neg
parse_int32 String.[] = none
parse_int32 (String.◌∷◌ c s) =
    if eqb (code c) b'+'
    then bounded_pos (parse_nat s)
    else if eqb (code c) b'-'
    then bounded_neg (parse_nat s)
    else bounded_pos (parse_nat (String.◌∷◌ c s))
