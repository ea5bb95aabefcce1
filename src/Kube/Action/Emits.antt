-- ===== src/Kube/Action/Emits.antt =====
-- `Emits P m`: whatever the outside does, the requests that `m` adds to the record satisfy `P`, in
-- success and in failure, and it takes none off.
use costguard_operator.Base.{
  ◌≡◌, refl, ap, ◌∙◌, sym, subst, List, [], ◌∷◌, ◌++◌, Bool, true, false, Option, none, some, All,
  All-append, All-map, if◌then◌else◌,
}
use mathlib.Core.List.{append_assoc, append-nil}
use costguard_operator.Kube.{Error, Result, ok, err, Event}
use costguard_operator.Kube.Action.Ensures.{Ensures}
use costguard_operator.Kube.Action.Run.{Outcome, done, failed, outcome, bind_ok, bind_err}
use costguard_operator.Kube.Action.{
  Call, World, Action, pure, fail, or_fail, checked, ◌>>=◌, sense, send, emit, on_error,
}

-- The requests that lead from one record to a longer one.
abbrev pub Grows : (Call → Type 0) → List Call → List Call → Type 0
Grows P before after = (new : List Call) × (after ≡ before ++ new) × All P new

pub Grows-refl : (P : Call → Type 0) (calls : List Call) → Grows P calls calls
Grows-refl P calls = ([], sym (append-nil calls), tt)

pub Grows-trans : (P : Call → Type 0) (a b c : List Call) → Grows P a b → Grows P b c → Grows P a c
Grows-trans P a b c (new, p, h) (more, q, k) =
    (new ++ more, q ∙ ap (λ l. l ++ more) p ∙ append_assoc a new more, All-append P new more h k)

pub record Emits {S A : Type 0} (P : Call → Type 0) (m : Action S A) : Type 0 where
  pub at : (w : World S) → Grows P w.calls (m w).1.calls

module _ {S A : Type 0} {P : Call → Type 0} where
  pub Emits-pure : (a : A) → Emits {S = S} P (pure a)
  Emits-pure a = record { at = λ w. Grows-refl P w.calls }

  pub Emits-fail : (e : Error) → Emits {S = S} {A = A} P (fail e)
  Emits-fail e = record { at = λ w. Grows-refl P w.calls }

  pub Emits-or_fail : (e : Error) (o : Option A) → Emits {S = S} P (or_fail e o)
  Emits-or_fail e none = Emits-fail e
  Emits-or_fail e (some a) = Emits-pure a

  pub Emits-sense : (f : S → A × S) → Emits P (sense f)
  Emits-sense f = record { at = λ w. Grows-refl P w.calls }

  pub Emits-if :
      (b : Bool) (m n : Action S A)
      → (b ≡ true → Emits P m)
      → (b ≡ false → Emits P n)
      → Emits P (if b then m else n)
  Emits-if true m n f g = f refl
  Emits-if false m n f g = g refl

module _ {S E A : Type 0} {P : Call → Type 0} where
  pub Emits-checked : (f : E → Error) (r : Result E A) → Emits {S = S} P (checked f r)
  Emits-checked f (ok a) = Emits-pure a
  Emits-checked f (err e) = Emits-fail (f e)

  pub Emits-send : (call : Call) (f : S → Result E A × S) → P call → Emits P (send call f)
  Emits-send call f h = record { at = λ w. (call ∷ [], refl, (h, tt)) }

pub Emits-emit :
    {S : Type 0} {P : Call → Type 0} (b : Bool) (e : Event) → Emits {S = S} P (emit b e)
Emits-emit {P} true e = record { at = λ w. Grows-refl P w.calls }
Emits-emit {P} false e = record { at = λ w. Grows-refl P w.calls }

module _ {S A B : Type 0} {P : Call → Type 0} where
  bind_at :
      (f : A → Action S B)
      → ((a : A) → Emits P (f a))
      → (start : List Call) (r : Result Error A) (w : World S) → Grows P start w.calls
      → Grows P start
          (let q : Result Error B × World S = elim r [ ok a ↦ f a w | err e ↦ (err e, w) ] in
            q).1.calls
  bind_at f k start (ok a) w g = Grows-trans P start w.calls (f a w).1.calls g ((k a).at w)
  bind_at f k start (err e) w g = g

  pub Emits-bind :
      (m : Action S A) (f : A → Action S B)
      → Emits P m
      → ((a : A) → Emits P (f a))
      → Emits P (m >>= f)
  Emits-bind m f h k = record { at = λ w. bind_at f k w.calls (m w).0 (m w).1 (h.at w) }

module _ {S A B : Type 0} {P : Call → Type 0} {R : A → Type 0} where
  -- The second action may rely on what the first ensures.
  pub Emits-bind_ensured :
      (m : Action S A) (f : A → Action S B)
      → Emits P m
      → Ensures R m
      → ((a : A) → R a → Emits P (f a))
      → Emits P (m >>= f)
  Emits-bind_ensured m f h v k = record { at = λ w. by_outcome w (outcome m w) }
    where
      by_outcome : (w : World S) → Outcome m w → Grows P w.calls ((m >>= f) w).1.calls
      by_outcome w (done a w' e) =
          subst (λ (q : Result Error B × World S). Grows P w.calls q.1.calls)
            (sym (bind_ok m f w a w' e))
            (Grows-trans P w.calls w'.calls (f a w').1.calls
              (subst (λ (q : Result Error A × World S). Grows P w.calls q.1.calls) e (h.at w))
              ((k a (v.of_value w w' a e)).at w'))
      by_outcome w (failed x w' e) =
          subst (λ (q : Result Error B × World S). Grows P w.calls q.1.calls)
            (sym (bind_err m f w x w' e))
            (subst (λ (q : Result Error A × World S). Grows P w.calls q.1.calls) e (h.at w))

module _ {S A : Type 0} {P : Call → Type 0} where
  on_error_at :
      (f : Error → Action S (Unit {0}))
      → ((e : Error) → Emits P (f e))
      → (start : List Call) (r : Result Error A) (w : World S) → Grows P start w.calls
      → Grows P start
          (let q : Result Error A × World S = elim r [
            | ok a ↦ (ok a, w)
            | err e ↦ (err e, (f e w).1)
          ] in
            q).1.calls
  on_error_at f k start (ok a) w g = g
  on_error_at f k start (err e) w g = Grows-trans P start w.calls (f e w).1.calls g ((k e).at w)

  pub Emits-on_error :
      (f : Error → Action S (Unit {0})) (m : Action S A)
      → Emits P m
      → ((e : Error) → Emits P (f e))
      → Emits P (on_error f m)
  Emits-on_error f m h k = record { at = λ w. on_error_at f k w.calls (m w).0 (m w).1 (h.at w) }

pub Grows-map :
    (P T : Call → Type 0) (a b : List Call)
    → ((call : Call) → P call → T call)
    → Grows P a b
    → Grows T a b
Grows-map P T a b f (new, e, h) = (new, e, All-map P T new f h)

pub Emits-map :
    {S A : Type 0} {P : Call → Type 0} (T : Call → Type 0) (m : Action S A)
    → ((call : Call) → P call → T call)
    → Emits P m
    → Emits T m
Emits-map {P} T m f h = record { at = λ w. Grows-map P T w.calls (m w).1.calls f (h.at w) }

pub ruleset emits_rules = (
  Emits-pure, Emits-fail, Emits-or_fail, Emits-checked, Emits-sense, Emits-send, Emits-if,
  Emits-emit, Emits-bind, Emits-on_error,
)
