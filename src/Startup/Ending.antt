-- ===== src/Startup/Ending.antt =====
-- How a part of main ends: with a value, or with the exit code of the process.
use costguard_operator.Base.{◌≡◌, refl, ap}
use costguard_operator.Kube.{Error, Result, ok, err}
use costguard_operator.Startup.Main.{ExitCode, Startup, or_exit, ◌>>=◌}

-- A part of main that ended: with a value and a state such that `O`, or the process with a code
-- such that `X`.
abbrev pub Ends :
    {S A : Type 0} → (A → S → Type 0) → (ExitCode → Type 0) → Result ExitCode A × S → Type 0
Ends O X (ok a, s) = O a s
Ends O X (err code, s) = X code

module _ {S A : Type 0} (P : A → S → Type 0) (X : ExitCode → Type 0) where
  -- A step that may end the process itself, and what follows it.
  pub Ends-step :
      {B : Type 0} (m : Startup S B) (f : B → Startup S A) (s : S)
      → ((code : ExitCode) (s1 : S) → m s ≡ (err code, s1) → X code)
      → ((b : B) (s1 : S) → m s ≡ (ok b, s1) → Ends P X (f b s1))
      → Ends P X ((m >>= f) s)
  Ends-step {B} m f s x k = by_outcome (m s) refl
    where
      by_outcome :
          (q : Result ExitCode B × S)
          → m s ≡ q
          → Ends P X (
              let p : Result ExitCode A × S = elim q.0 [
                | ok b ↦ f b q.1
                | err code ↦ (err code, q.1)
              ] in
              p)
      by_outcome (ok b, s1) e = k b s1 e
      by_outcome (err code, s1) e = x code s1 e

  -- The last step, whose error ends the process with the code 1.
  pub Ends-last :
      (operation : S → Result Error A × S) (s : S)
      → X 1
      → ((a : A) (s1 : S) → operation s ≡ (ok a, s1) → P a s1)
      → Ends P X (or_exit operation s)
  Ends-last operation s x k = by_answer (operation s) refl
    where
      by_answer :
          (q : Result Error A × S)
          → operation s ≡ q
          → Ends P X (
              let p : Result ExitCode A × S = elim q.0 [
                | ok a ↦ (ok a, q.1)
                | err e ↦ (err 1, q.1)
              ] in
              p)
      by_answer (ok a, s1) e = k a s1 e
      by_answer (err e, s1) h = x

  -- A step before it.
  pub Ends-or_exit :
      {B : Type 0} (operation : S → Result Error B × S) (f : B → Startup S A) (s : S)
      → X 1
      → ((b : B) (s1 : S) → operation s ≡ (ok b, s1) → Ends P X (f b s1))
      → Ends P X ((or_exit operation >>= f) s)
  Ends-or_exit {B} operation f s x k = by_answer (operation s) refl
    where
      by_answer :
          (q : Result Error B × S) → operation s ≡ q → Ends P X ((or_exit (λ (t : S). q) >>= f) s)
      by_answer (ok b, s1) e = k b s1 e
      by_answer (err e, s1) h = x

pub Ends-weaken :
    {S A : Type 0} (O P : A → S → Type 0) (X : ExitCode → Type 0)
    → ((a : A) (s : S) → O a s → P a s)
    → (q : Result ExitCode A × S) → Ends O X q
    → Ends P X q
Ends-weaken O P X k (ok a, s) h = k a s h
Ends-weaken O P X k (err code, s) h = h

module _ {S A B : Type 0} where
  pub run_step :
      (operation : S → Result Error B × S) (f : B → Startup S A) (s s' : S) (b : B)
      → operation s ≡ (ok b, s')
      → (or_exit operation >>= f) s ≡ f b s'
  run_step operation f s s' b e =
      ap (λ (q : Result Error B × S). (or_exit (λ (t : S). q) >>= f) s) e

module _ {S A : Type 0} where
  pub run_last :
      (operation : S → Result Error A × S) (s s' : S) (a : A)
      → operation s ≡ (ok a, s')
      → or_exit operation s ≡ (ok a, s')
  run_last operation s s' a e = ap (λ (q : Result Error A × S). or_exit (λ (t : S). q) s) e
