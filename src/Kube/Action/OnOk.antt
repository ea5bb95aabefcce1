-- ===== src/Kube/Action/OnOk.antt =====
-- What holds of the result of an action and of the world after it, where it succeeds.
use costguard_operator.Base.{◌≡◌, refl, sym, ap, ◌∙◌, subst, [], ◌∷◌, ◌++◌, Option, none, some}
use costguard_operator.Kube.{Error, Result, ok, err}
use costguard_operator.Kube.Action.{
  World, Action, Call, pure, send, checked, or_fail, on_error, ◌>>=◌,
}
use costguard_operator.Kube.Action.Ensures.{IsOk}
use costguard_operator.Kube.Action.Run.{Outcome, done, failed, outcome, bind_ok, bind_err}

-- Where the action succeeds, its result and the world after it satisfy `R`.
pub record OnOk {S A : Type 0} (R : A → World S → Type 0) (m : Action S A) (w : World S)
    : Type 0 where
  pub of_run : (w' : World S) (a : A) → m w ≡ (ok a, w') → R a w'

pub OnOk-bind :
    {S A B : Type 0} (T : A → World S → Type 0) (R : B → World S → Type 0) (m : Action S A)
    (f : A → Action S B) (w : World S)
    → OnOk T m w
    → ((a : A) (w1 : World S) → T a w1 → OnOk R (f a) w1)
    → OnOk R (m >>= f) w
OnOk-bind {S} {A} {B} T R m f w h k = record { of_run = λ w' b e. by_outcome w' b e (outcome m w) }
  where
    by_outcome : (w' : World S) (b : B) → (m >>= f) w ≡ (ok b, w') → Outcome m w → R b w'
    by_outcome w' b e (done a y p) =
        (k a y (h.of_run y a p)).of_run w' b (sym (bind_ok m f w a y p) ∙ e)
    by_outcome w' b e (failed x y p) = absurd (subst IsOk (sym (sym (bind_err m f w x y p) ∙ e)) tt)

abbrev value_or : {S A : Type 0} → A → Result Error A × World S → A
value_or d (ok a, w) = a
value_or d (err x, w) = d

-- A step that only parses.
pub or_fail-OnOk :
    {S A : Type 0} (x : Error) (o : Option A) (w : World S)
    → OnOk (λ a w'. (o ≡ some a) × (w'.server ≡ w.server)) (or_fail x o) w
or_fail-OnOk x none w = record { of_run = λ w' a e. absurd (subst IsOk (sym e) tt) }
or_fail-OnOk {S} {A} x (some b) w = record {
  of_run = λ w' a e. (
    ap (λ (p : Result Error A × World S). some (value_or b p)) e,
    ap (λ (p : Result Error A × World S). p.1.server) (sym e),
  );
}

-- A request that succeeded.
pub sent_ok :
    {S E : Type 0} (call : Call) (operation : S → Result E (Unit {0}) × S) (context : E → Error)
    (w w' : World S) (b : Unit {0})
    → (send call operation >>= checked context) w ≡ (ok b, w')
    → operation w.server ≡ (ok b, w'.server)
sent_ok {S} {E} call operation context w w' b e =
    by_result (operation w.server).0 (operation w.server).1 refl e
  where
    answered : Result Error (Unit {0}) × World S → Result E (Unit {0}) × S
    answered p = (ok (value_or tt p), p.1.server)

    by_result :
        (q : Result E (Unit {0})) (s : S)
        → operation w.server ≡ (q, s)
        → checked context q (record w { server = s; calls = w.calls ++ call ∷ [] }) ≡ (ok b, w')
        → operation w.server ≡ (ok b, w'.server)
    by_result (ok a) s answer p = answer ∙ ap answered p
    by_result (err x) s answer p = absurd (subst IsOk (sym p) tt)

pub OnOk-pure :
    {S A : Type 0} (R : A → World S → Type 0) (a : A) (w : World S) → R a w → OnOk R (pure a) w
OnOk-pure {S} {A} R a w h = record {
  of_run = λ w' b e. subst (λ (p : Result Error A × World S). R (value_or a p) p.1) e h;
}

-- The report of an error changes nothing in success.
pub on_error-OnOk :
    {S A : Type 0} (R : A → World S → Type 0) (report : Error → Action S (Unit {0}))
    (m : Action S A) (w : World S)
    → OnOk R m w
    → OnOk R (on_error report m) w
on_error-OnOk {S} {A} R report m w h = record { of_run = λ w' a e. by_outcome w' a e (outcome m w) }
  where
    reported : Result Error A × World S → Result Error A × World S
    reported p = elim p.0 [ ok a ↦ (ok a, p.1) | err e ↦ (err e, (report e p.1).1) ]

    by_outcome : (w' : World S) (a : A) → on_error report m w ≡ (ok a, w') → Outcome m w → R a w'
    by_outcome w' a e (done b y p) = h.of_run w' a (p ∙ sym (ap reported p) ∙ e)
    by_outcome w' a e (failed x y p) = absurd (subst IsOk (sym (sym (ap reported p) ∙ e)) tt)
