-- ===== src/Kube/Action/Ensures.antt =====
-- `Ensures R m`: what `m` returns, when it succeeds, satisfies `R`.
use costguard_operator.Base.{◌≡◌, refl, sym, ap, ◌∙◌, subst, Bool, true, false, if◌then◌else◌}
use costguard_operator.Kube.{Error, Result, ok, err}
use costguard_operator.Kube.Action.{World, Action, pure, fail, ◌>>=◌, on_error}
use costguard_operator.Kube.Action.Run.{Outcome, done, failed, outcome, bind_ok, bind_err}

pub record Ensures {S A : Type 0} (R : A → Type 0) (m : Action S A) : Type 0 where
  pub of_value : (w w' : World S) (a : A) → m w ≡ (ok a, w') → R a

-- `m w` is a pair; `q` is its first part.
abbrev ok_value : {S A : Type 0} → A → Result Error A × World S → A
ok_value d (ok a, w) = a
ok_value d (err x, w) = d

abbrev pub IsOk : {S A : Type 0} → Result Error A × World S → Type 0
IsOk (ok a, w) = Unit
IsOk (err x, w) = ⊥

module _ {S A : Type 0} where
  on_error_eq_ok :
      (f : Error → Action S (Unit {0})) (q : Result Error A) (w w' : World S) (a : A)
      → (let p : Result Error A × World S = elim q [
        | ok a ↦ (ok a, w)
        | err e ↦ (err e, (f e w).1)
      ] in
          p)
        ≡ (ok a, w')
      → q ≡ ok a
  on_error_eq_ok f (ok b) w w' a e = ap (λ (p : Result Error A × World S). p.0) e
  on_error_eq_ok f (err x) w w' a e = absurd (subst IsOk (sym e) tt)

module _ {S A : Type 0} {R : A → Type 0} where
  pub Ensures-pure : (a : A) → R a → Ensures {S = S} R (pure a)
  Ensures-pure a h = record { of_value = λ w w' b e. subst R (ap (ok_value a) e) h }

  pub Ensures-fail : (x : Error) → Ensures {S = S} R (fail x)
  Ensures-fail x = record { of_value = λ w w' b e. absurd (subst IsOk (sym e) tt) }

  pub Ensures-if :
      (b : Bool) (m n : Action S A)
      → (b ≡ true → Ensures R m)
      → (b ≡ false → Ensures R n)
      → Ensures R (if b then m else n)
  Ensures-if true m n f g = f refl
  Ensures-if false m n f g = g refl

  pub Ensures-on_error :
      (f : Error → Action S (Unit {0})) (m : Action S A) → Ensures R m → Ensures R (on_error f m)
  Ensures-on_error f m h = record {
    of_value = λ w w' a e. h.of_value w (m w).1 a (
        ap (λ (q : Result Error A). let p : Result Error A × World S = (q, (m w).1) in p)
          (on_error_eq_ok f (m w).0 (m w).1 w' a e));
  }

module _ {S A B : Type 0} {R : B → Type 0} where
  pub Ensures-bind :
      (m : Action S A) (f : A → Action S B) → ((a : A) → Ensures R (f a)) → Ensures R (m >>= f)
  Ensures-bind m f k = record { of_value = λ w w' b e. by_outcome w w' b e (outcome m w) }
    where
      by_outcome : (w w' : World S) (b : B) → (m >>= f) w ≡ (ok b, w') → Outcome m w → R b
      by_outcome w w' b e (done a y p) = (k a).of_value y w' b (sym (bind_ok m f w a y p) ∙ e)
      by_outcome w w' b e (failed x y p) =
          absurd (subst IsOk (sym (sym (bind_err m f w x y p) ∙ e)) tt)

module _ {S A B : Type 0} {T : A → Type 0} {R : B → Type 0} where
  -- The second action may rely on what the first ensures.
  pub Ensures-bind_ensured :
      (m : Action S A) (f : A → Action S B)
      → Ensures T m
      → ((a : A) → T a → Ensures R (f a))
      → Ensures R (m >>= f)
  Ensures-bind_ensured m f h k = record { of_value = λ w w' b e. by_outcome w w' b e (outcome m w) }
    where
      by_outcome : (w w' : World S) (b : B) → (m >>= f) w ≡ (ok b, w') → Outcome m w → R b
      by_outcome w w' b e (done a y p) =
          (k a (h.of_value w y a p)).of_value y w' b (sym (bind_ok m f w a y p) ∙ e)
      by_outcome w w' b e (failed x y p) =
          absurd (subst IsOk (sym (sym (bind_err m f w x y p) ∙ e)) tt)

pub ruleset ensures_rules = (Ensures-pure, Ensures-fail, Ensures-if, Ensures-on_error, Ensures-bind)
