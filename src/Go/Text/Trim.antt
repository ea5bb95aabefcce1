-- ===== src/Go/Text/Trim.antt =====
-- strings.TrimSpace leaves a text without spaces as it is.
use Prim.Native.String.{◌++◌}
use Prim.Native.String.append
use costguard_operator.Base.{
  ◌≡◌, refl, ap, ◌∙◌, String, code, Bool, true, false, not, ◌&&◌, arith, if◌then◌else◌,
}
use costguard_operator.Go.Text.{is_space, is_empty, trim_left, trim_right, trim_space}

-- No character is a space.
abbrev pub has_no_space : String → Bool
has_no_space String.[] = true
has_no_space (String.◌∷◌ c s) = not (is_space (code c)) && has_no_space s

first_of : (b c : Bool) → (not b && c) ≡ true → b ≡ false
first_of b c h = ground arith

second_of : (b c : Bool) → (not b && c) ≡ true → c ≡ true
second_of b c h = ground arith

false_and : (b c : Bool) → b ≡ false → (b && c) ≡ false
false_and b c h = ground arith

trim_left_kept : (s : String) → has_no_space s ≡ true → trim_left s ≡ s
unfolding trim_left
trim_left_kept String.[] h = refl
trim_left_kept (String.◌∷◌ c s) h =
    ap (λ (b : Bool). if b then trim_left s else String.◌∷◌ c s)
      (first_of (is_space (code c)) (has_no_space s) h)

trim_right_kept : (s : String) → has_no_space s ≡ true → trim_right s ≡ s
unfolding trim_right
trim_right_kept String.[] h = refl
trim_right_kept (String.◌∷◌ c s) h =
    ap (λ (b : Bool). if b then "" else String.◌∷◌ c (trim_right s))
      (false_and (is_space (code c)) (is_empty (trim_right s))
        (first_of (is_space (code c)) (has_no_space s) h))
    ∙ ap (λ (t : String). String.◌∷◌ c t)
        (trim_right_kept s (second_of (is_space (code c)) (has_no_space s) h))

pub trim_space_kept : (s : String) → has_no_space s ≡ true → trim_space s ≡ s
unfolding trim_space
trim_space_kept s h = ap trim_right (trim_left_kept s h) ∙ trim_right_kept s h

pub has_no_space-append :
    (s t : String) → has_no_space s ≡ true → has_no_space t ≡ true → has_no_space (s ++ t) ≡ true
has_no_space-append String.[] t p q = ap has_no_space (append.nil t) ∙ q
has_no_space-append (String.◌∷◌ c s) t p q =
    ap has_no_space (append.cons c s t)
    ∙ both (is_space (code c)) (first_of (is_space (code c)) (has_no_space s) p)
        (has_no_space-append s t (second_of (is_space (code c)) (has_no_space s) p) q)
  where
    both : (b : Bool) {d : Bool} → b ≡ false → d ≡ true → (not b && d) ≡ true
    both b e f = ground arith
