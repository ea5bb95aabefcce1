-- ===== src/Controller/Reconcile.antt =====
-- internal/controller/budgetnamespace_controller.go: Reconcile, from the request to its result.
pub mod Permitted
pub mod Emissions
pub mod SameSpec
pub mod SpendRequests
pub mod Branches
pub mod Acting
pub mod Safety
pub mod StatusWrite
pub mod Bounds
pub mod Flagged
pub mod Looked
pub mod Observed
pub mod Evaluated
pub mod OnlyScaling
pub mod Cooling
pub mod Recording
pub mod Recorded
pub mod Telling
pub mod Errors
pub mod Requeue
use costguard_operator.Base.{
  String, Bool, true, false, not, ◌&&◌, ◌||◌, Option, none, some, if◌then◌else◌, ℤ, pos, ltb_ℤ,
  leb_ℤ,
}
use costguard_operator.Go.Time.{Time, Duration}
use costguard_operator.Api.{BudgetNamespace, BudgetNamespaceSpec}
use costguard_operator.Kube.{
  ApiError, not_found, conflict, other_error, Error, api_error, wrap, Result, ok, err,
  NamespacedName,
}
use costguard_operator.Kube.Action.{
  Action, World, pure, fail, checked, ◌>>=◌, ◌>>◌, sense, send, fetch, update_status,
}
use costguard_operator.Controller.Reconciler.{Reconciler, enforcement_poll_interval}
use costguard_operator.Controller.Scale.{is_zero_int}
use costguard_operator.Controller.Cost.{validate_cost_budget_spec}
use costguard_operator.Controller.Quota.{should_scale_deployments_to_zero}
use costguard_operator.Controller.Ttl.{Ttl, ttl_state}
use costguard_operator.Controller.Ensure.{ensure_resources}
use costguard_operator.Controller.Enforce.{
  Progress, start_progress, enforce_budget, scale_in_grace, delete_expired,
}
use costguard_operator.Controller.Status.{with_new_status}

-- ctrl.Result
pub record ReconcileResult : Type 0 where
  pub requeue : Bool
  pub requeue_after : Duration

abbrev pub no_requeue : ReconcileResult
no_requeue = record { requeue = false; requeue_after = pos 0 }

-- `if requeueAfter == 0 || enforcementPollInterval < requeueAfter`
abbrev poll_earlier : Duration → Duration
poll_earlier requeue_after =
    if is_zero_int requeue_after || ltb_ℤ enforcement_poll_interval requeue_after
    then enforcement_poll_interval
    else requeue_after

abbrev pub next_requeue : BudgetNamespaceSpec → Ttl → Duration
next_requeue spec ttl =
    if should_scale_deployments_to_zero spec && not ttl.expired
    then poll_earlier ttl.requeue_after_ttl
    else ttl.requeue_after_ttl

-- The end of Reconcile.
unfoldable pub requeue_result : BudgetNamespaceSpec → Ttl → ReconcileResult
requeue_result spec ttl =
    if ltb_ℤ (pos 0) (next_requeue spec ttl)
    then record { requeue = false; requeue_after = next_requeue spec ttl }
    else no_requeue

module _ {F Q S : Type 0} (r : Reconciler F Q S) where
  -- The enforcement of a live BudgetNamespace.
  unfoldable pub enforce_live : BudgetNamespace → Time → Action S Progress
  enforce_live bn now =
      if should_scale_deployments_to_zero bn.spec
      then enforce_budget r (start_progress bn) now
      else pure (start_progress bn)

  -- The branch `if !expired`, twice: the resources, then the enforcement.
  unfoldable pub act_live : BudgetNamespace → Time → Action S Progress
  act_live bn now = do ensure_resources r bn.spec; enforce_live bn now

  unfoldable pub act_deleting : BudgetNamespace → Action S Progress
  act_deleting bn = do delete_expired r bn.spec.namespace_name; pure (start_progress bn)

  -- The branches on the life of the namespace.
  unfoldable pub act : BudgetNamespace → Time → Ttl → Action S Progress
  act bn now ttl =
      if not ttl.expired
      then act_live bn now
      else if not ttl.deleting && should_scale_deployments_to_zero bn.spec
      then scale_in_grace r (start_progress bn)
      else if ttl.deleting
      then act_deleting bn
      else pure (start_progress bn)

  -- The result after Status().Update: a conflict asks for another reconciliation.
  unfoldable pub status_result :
      BudgetNamespaceSpec → Ttl → Result ApiError (Unit {0}) → Action S ReconcileResult
  status_result spec ttl (ok done) = pure (requeue_result spec ttl)
  status_result spec ttl (err conflict) = pure (record { requeue = true; requeue_after = pos 0 })
  status_result spec ttl (err not_found) =
      fail (wrap "update BudgetNamespace status: %w" (api_error not_found))
  status_result spec ttl (err (other_error what)) =
      fail (wrap "update BudgetNamespace status: %w" (api_error (other_error what)))

  unfoldable pub write_status : Ttl → Progress → Action S ReconcileResult
  write_status ttl p w =
      let bn = with_new_status r w.server p ttl in
      (send (update_status bn) (r.client.update_status bn) >>= status_result bn.spec ttl) w

  unfoldable pub act_and_write : BudgetNamespace → Time → Ttl → Action S ReconcileResult
  act_and_write bn now ttl = do p ← act bn now ttl; write_status ttl p

  -- From the reading of the clock on.
  unfoldable pub reconcile_at : BudgetNamespace → Time → Action S ReconcileResult
  reconcile_at bn now = do
    ttl ← ttl_state r bn.spec.ttl bn.creation_timestamp now
    act_and_write bn now ttl

  unfoldable pub reconcile_valid : BudgetNamespace → Action S ReconcileResult
  reconcile_valid bn = do now ← sense r.client.now; reconcile_at bn now

  -- `none` of the validation is nil
  unfoldable pub reconcile_checked : BudgetNamespace → Option Error → Action S ReconcileResult
  reconcile_checked bn (some e) = fail e
  reconcile_checked bn none = reconcile_valid bn

  -- client.IgnoreNotFound
  unfoldable pub reconcile_found : Result ApiError BudgetNamespace → Action S ReconcileResult
  reconcile_found (ok bn) = reconcile_checked bn (validate_cost_budget_spec r bn.spec)
  reconcile_found (err not_found) = pure no_requeue
  reconcile_found (err conflict) = fail (api_error conflict)
  reconcile_found (err (other_error what)) = fail (api_error (other_error what))

  unfoldable pub reconcile : NamespacedName → Action S ReconcileResult
  reconcile req = do found ← fetch (r.client.get_budget_namespace req); reconcile_found found
