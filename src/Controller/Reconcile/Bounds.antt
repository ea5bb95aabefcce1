-- ===== src/Controller/Reconcile/Bounds.antt =====
-- What a successful Reconcile returns to its queue, and what its enforcement has evaluated by then.
use costguard_operator.Base.{
  ◌==◌, ◌≡◌, refl, String, true, Option, none, some, pos, ◌≤ℤ◌, ◌*◌, arith,
}
use costguard_operator.Go.Duration.{minute, parse_duration}
use costguard_operator.Go.Time.{Time, Duration, add}
use costguard_operator.Api.{BudgetNamespace, BudgetNamespaceSpec}
use costguard_operator.Kube.{
  ApiError, not_found, conflict, other_error, Error, Result, ok, err, NamespacedName, api_error,
  wrap, parse_error,
}
use costguard_operator.Kube.Action.{
  Action, World, pure, or_fail, ◌>>=◌, sense, fetch, send, update_status,
}
use costguard_operator.Kube.Action.Ensures.{
  Ensures, Ensures-pure, Ensures-fail, Ensures-if, Ensures-bind, Ensures-bind_ensured,
}
use costguard_operator.Controller.Reconciler.{Reconciler}
use costguard_operator.Controller.Cost.{validate_cost_budget_spec}
use costguard_operator.Controller.Ttl.{Ttl, ttl_state, ttl_at, ttl_requeue, no_ttl, ttl_waiting}
use costguard_operator.Controller.Ttl.Laws.{ttl_requeue-Ensures}
use costguard_operator.Controller.Enforce.{Progress}
use costguard_operator.Controller.Status.{with_new_status}
use costguard_operator.Controller.Reconcile.{
  ReconcileResult, requeue_result, no_requeue, act, act_and_write, write_status, status_result,
  reconcile_at, reconcile_valid, reconcile_checked, reconcile_found, reconcile,
}

-- The wait that the TTL block asks for is at most ten minutes.
abbrev Short : Ttl → Type 0
Short ttl = ttl.requeue_after_ttl ≤ℤ pos (10 * minute)

-- The wait of a result is not negative and at most ten minutes, and one that asks to be run again
-- at once asks for no wait.
pub record InBounds (result : ReconcileResult) : Type 0 where
  pub not_negative : pos 0 ≤ℤ result.requeue_after
  pub at_most : result.requeue_after ≤ℤ pos (10 * minute)
  pub at_once : result.requeue ≡ true → result.requeue_after ≡ pos 0

requeue_result-InBounds :
    (spec : BudgetNamespaceSpec) (ttl : Ttl) → Short ttl → InBounds (requeue_result spec ttl)
unfolding requeue_result
requeue_result-InBounds spec ttl short = record {
  not_negative = ground arith;
  at_most = ground arith;
  at_once = ground arith;
}

abbrev no_wait : InBounds no_requeue
no_wait = record { not_negative = omega arith; at_most = omega arith; at_once = λ e. refl }

no_wait_at_all : Short no_ttl
no_wait_at_all = omega arith

module _ {F Q S : Type 0} (r : Reconciler F Q S) where
  ttl_at-Short : (expiry now : Time) → Ensures Short (ttl_at r expiry now)
  unfolding ttl_at
  ttl_at-Short expiry now =
      Ensures-bind_ensured (ttl_requeue r expiry now) _ (ttl_requeue-Ensures r expiry now)
        (λ wait short. Ensures-pure (ttl_waiting expiry now wait) short)

  ttl_state-Short :
      (ttl : String) (creation now : Time) → Ensures Short (ttl_state r ttl creation now)
  unfolding ttl_state
  ttl_state-Short ttl creation now =
      Ensures-if (ttl == "") (pure no_ttl)
        (parsed_ttl >>= (λ ttl_duration. ttl_at r (add creation ttl_duration) now))
        (λ e. Ensures-pure no_ttl no_wait_at_all)
        (λ e.
          Ensures-bind parsed_ttl (λ ttl_duration. ttl_at r (add creation ttl_duration) now)
            (λ d. ttl_at-Short (add creation d) now))
    where
      parsed_ttl : Action S Duration
      parsed_ttl =
          or_fail (wrap "parse spec.ttl %q: %w" (parse_error ttl))
            (parse_duration r.floats.fraction_of ttl)

  status_result-InBounds :
      (spec : BudgetNamespaceSpec) (ttl : Ttl) (answer : Result ApiError (Unit {0}))
      → Short ttl
      → Ensures InBounds (status_result r spec ttl answer)
  unfolding status_result
  status_result-InBounds spec ttl (ok u) short =
      Ensures-pure (requeue_result spec ttl) (requeue_result-InBounds spec ttl short)
  status_result-InBounds spec ttl (err conflict) short =
      Ensures-pure (record { requeue = true; requeue_after = pos 0 })
        (record { not_negative = omega arith; at_most = omega arith; at_once = λ e. refl })
  status_result-InBounds spec ttl (err not_found) short = Ensures-fail _
  status_result-InBounds spec ttl (err (other_error what)) short = Ensures-fail _

  write_status-InBounds :
      (ttl : Ttl) (p : Progress) → Short ttl → Ensures InBounds (write_status r ttl p)
  unfolding write_status
  write_status-InBounds ttl p short = record { of_value = λ w w' a e. at w w' a e }
    where
      at : (w w' : World S) (a : ReconcileResult) → write_status r ttl p w ≡ (ok a, w') → InBounds a
      at w w' a e =
          let bn = with_new_status r w.server p ttl in
          (Ensures-bind (send (update_status bn) (r.client.update_status bn))
              (status_result r bn.spec ttl)
              (λ answer. status_result-InBounds bn.spec ttl answer short)).of_value
            w w' a e

  reconcile_at-InBounds :
      (bn : BudgetNamespace) (now : Time) → Ensures InBounds (reconcile_at r bn now)
  unfolding reconcile_at act_and_write
  reconcile_at-InBounds bn now =
      Ensures-bind_ensured (ttl_state r bn.spec.ttl bn.creation_timestamp now)
        (act_and_write r bn now) (ttl_state-Short bn.spec.ttl bn.creation_timestamp now)
        (λ ttl short.
          Ensures-bind (act r bn now ttl) (write_status r ttl)
            (λ p. write_status-InBounds ttl p short))

  checked-InBounds :
      (bn : BudgetNamespace) (invalid : Option Error)
      → Ensures InBounds (reconcile_checked r bn invalid)
  unfolding reconcile_checked reconcile_valid
  checked-InBounds bn none =
      Ensures-bind (sense r.client.now) (reconcile_at r bn) (reconcile_at-InBounds bn)
  checked-InBounds bn (some e) = Ensures-fail e

  found-InBounds :
      (found : Result ApiError BudgetNamespace) → Ensures InBounds (reconcile_found r found)
  unfolding reconcile_found
  found-InBounds (ok bn) = checked-InBounds bn (validate_cost_budget_spec r bn.spec)
  found-InBounds (err not_found) = Ensures-pure no_requeue no_wait
  found-InBounds (err conflict) = Ensures-fail (api_error conflict)
  found-InBounds (err (other_error what)) = Ensures-fail (api_error (other_error what))

  -- A Reconcile that succeeds asks for a wait that is not negative and at most ten minutes, or to be
  -- run again at once with no wait, whatever the clock and the TTL are.
  pub reconcile-InBounds :
      (req : NamespacedName) (w w' : World S) (result : ReconcileResult)
      → reconcile r req w ≡ (ok result, w')
      → InBounds result
  unfolding reconcile
  reconcile-InBounds req w w' result e =
      (Ensures-bind (fetch (r.client.get_budget_namespace req)) (reconcile_found r)
          found-InBounds).of_value
        w w' result e
