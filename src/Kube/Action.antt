-- ===== src/Kube/Action.antt =====
-- An action of the operator: it reads and writes the outside state, may fail, and leaves a record
-- of the requests that it sent and the events that it emitted. Reads are not recorded. A failed
-- action keeps what it has done.
pub mod Emits
pub mod Ensures
pub mod Run
pub mod OnOk
use costguard_operator.Base.{String, List, [], ◌∷◌, ◌++◌, Bool, Option, none, some, if◌then◌else◌}
use costguard_operator.Api.{BudgetNamespace}
use costguard_operator.Kube.{Error, Result, ok, err, Kind, Workload, Event}

-- A request that can change the cluster, or that costs money.
pub data Call : Type 0 where
  ensure_namespace ensure_resource_quota ensure_limit_range delete_namespace : String → Call
  patch : Kind → String → Workload → Workload → Call
  query_spend : String → Call
  update_status : BudgetNamespace → Call

pub record World (S : Type 0) : Type 0 where
  pub server : S
  pub calls : List Call
  pub events : List Event

abbrev pub Action : Type 0 → Type 0 → Type 0
Action S A = World S → Result Error A × World S

module _ {S A : Type 0} where
  abbrev pub pure : A → Action S A
  pure a w = (ok a, w)

  abbrev pub fail : Error → Action S A
  fail e w = (err e, w)

  -- The error of a step that only parses.
  abbrev pub or_fail : Error → Option A → Action S A
  or_fail e none = fail e
  or_fail e (some a) = pure a

module _ {S E A : Type 0} where
  -- The error of a request, in its context.
  abbrev pub checked : (E → Error) → Result E A → Action S A
  checked context (ok a) = pure a
  checked context (err e) = fail (context e)

  -- A request that is recorded; its result is a value.
  abbrev pub send : Call → (S → Result E A × S) → Action S (Result E A)
  send call operation w =
      let (r, s) = operation w.server in
      (ok r, record w { server = s; calls = w.calls ++ call ∷ [] })

module _ {S A B : Type 0} where
  infixl 5 ◌>>=◌ ◌>>◌
  abbrev pub ◌>>=◌ : Action S A → (A → Action S B) → Action S B
  ◌>>=◌ m f w = let (r, w') = m w in elim r [ ok a ↦ f a w' | err e ↦ (err e, w') ]

  abbrev pub ◌>>◌ : Action S A → Action S B → Action S B
  m >> k = m >>= λ _. k

module _ {S A : Type 0} where
  -- An operation of the outside that needs no record, and cannot fail.
  abbrev pub sense : (S → A × S) → Action S A
  sense operation w = let (a, s) = operation w.server in (ok a, record w { server = s })

module _ {S E A : Type 0} where
  -- A read: not recorded, its result a value.
  abbrev pub fetch : (S → Result E A × S) → Action S (Result E A)
  fetch operation = sense operation

module _ {S : Type 0} where
  abbrev pub emit : Bool → Event → Action S (Unit {0})
  emit recorder event w =
      (ok tt, if recorder then record w { events = w.events ++ event ∷ [] } else w)

-- `if err != nil { r.recordWarning(…, err.Error()); return …, err }` after an action.
module _ {S A : Type 0} where
  abbrev pub on_error : (Error → Action S (Unit {0})) → Action S A → Action S A
  on_error report m w =
      let (r, w') = m w in elim r [ ok a ↦ (ok a, w') | err e ↦ (err e, (report e w').1) ]
