-- ===== src/Kube/Action/Run.antt =====
-- How a chain of actions runs from one world, by the outcome of its first action.
use costguard_operator.Base.{◌≡◌, refl, ap}
use costguard_operator.Kube.{Error, Result, ok, err}
use costguard_operator.Kube.Action.{World, Action, ◌>>=◌}

-- Either outcome of an action at a world.
pub data Outcome {S A : Type 0} (m : Action S A) (w : World S) : Type 0 where
  done : (a : A) (w' : World S) → m w ≡ (ok a, w') → Outcome m w
  failed : (e : Error) (w' : World S) → m w ≡ (err e, w') → Outcome m w

classify :
    {S A : Type 0} (m : Action S A) (w : World S) (q : Result Error A) (w' : World S)
    → m w ≡ (q, w')
    → Outcome m w
classify m w (ok a) w' e = done a w' e
classify m w (err x) w' e = failed x w' e

pub outcome : {S A : Type 0} (m : Action S A) (w : World S) → Outcome m w
outcome m w = classify m w (m w).0 (m w).1 refl

module _ {S A B : Type 0} (m : Action S A) (f : A → Action S B) (w : World S) where
  abbrev resume : Result Error A × World S → Result Error B × World S
  resume p = elim p.0 [ ok a ↦ f a p.1 | err e ↦ (err e, p.1) ]

  pub bind_ok : (a : A) (w' : World S) → m w ≡ (ok a, w') → (m >>= f) w ≡ f a w'
  bind_ok a w' e = ap resume e

  pub bind_err : (x : Error) (w' : World S) → m w ≡ (err x, w') → (m >>= f) w ≡ (err x, w')
  bind_err x w' e = ap resume e
