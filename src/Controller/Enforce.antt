-- ===== src/Controller/Enforce.antt =====
-- internal/controller/budgetnamespace_controller.go, Reconcile: what happens to the workloads. A live
-- BudgetNamespace is scaled to zero while it is over budget and restored afterwards; one in the
-- grace period after its TTL is scaled to zero; one past that has its Namespace deleted.
pub mod Cooldown
use costguard_operator.Base.{
  ℕ, ◌-◌, ◌%◌, String, Bool, true, false, not, ◌||◌, Option, none, some, if◌then◌else◌, ltb, pos,
  negsuc, max_ℤ,
}
use costguard_operator.Go.Duration.{second}
use costguard_operator.Go.Time.{Time, Duration, add, sub}
use costguard_operator.Api.{BudgetNamespace, text, counting, counting_for, lasting}
use costguard_operator.Kube.{
  ApiError, not_found, conflict, other_error, api_error, wrap, Result, ok, err, failure, shown,
  ResourceQuota,
}
use costguard_operator.Kube.Action.{
  Action, pure, fail, checked, ◌>>=◌, ◌>>◌, sense, send, fetch, on_error, delete_namespace,
}
use costguard_operator.Controller.Reconciler.{
  Reconciler, record_normal, record_warning, resource_quota_name, enforcement_op_scale_to_zero,
  enforcement_op_restore,
}
use costguard_operator.Controller.Scale.{scale_workloads_to_zero}
use costguard_operator.Controller.Restore.{
  restore_on_recovery_enabled, can_restore_after_scale_down, enforcement_cooldown,
  workloads_pending_restore, restore_scaled_workloads,
}
use costguard_operator.Controller.Cost.{
  cost_budget_enabled, cost_budget_max_usd, spend_at_or_over_max, resolve_namespace_spend_usd,
  within_cost_budget_for_restore, enforcement_scale_reason,
}
use costguard_operator.Controller.Quota.{quota_used_at_or_over_hard}

-- The resource as read (with the status fields that the spend query sets), and the local variables
-- of Reconcile that the enforcement sets.
pub record Progress : Type 0 where
  pub budget_namespace : BudgetNamespace
  pub last_enf_at : Option Time
  pub last_enf_op : String
  pub recovery_deferred : Bool
  pub quota_evaluated : Bool
  pub quota_at_hard_limit : Bool
  pub cost_budget_evaluated : Bool
  pub cost_over_budget : Bool

unfoldable pub start_progress : BudgetNamespace → Progress
start_progress bn = record {
  budget_namespace = bn;
  last_enf_at = bn.status.last_enforcement_at;
  last_enf_op = bn.status.last_enforcement_operation;
  recovery_deferred = false;
  quota_evaluated = false;
  quota_at_hard_limit = false;
  cost_budget_evaluated = false;
  cost_over_budget = false;
}

abbrev pub at_budget_risk : Progress → Bool
at_budget_risk p = p.quota_at_hard_limit || p.cost_over_budget

-- remaining.Truncate(time.Second) of a duration that is not negative
abbrev truncated : Duration → Duration
truncated (pos n) = pos (n - n % second)
truncated (negsuc n) = negsuc n

-- max(lastEnfAt.Add(cooldown).Sub(now), 0); the pointer is not nil where this is used
abbrev remaining_cooldown : Option Time → Duration → Time → Duration
remaining_cooldown none cooldown now = pos 0
remaining_cooldown (some at) cooldown now = max_ℤ (sub (add at cooldown) now) (pos 0)

module _ {F Q S : Type 0} (r : Reconciler F Q S) where
  -- A failure is shown by a warning event and passed on.
  unfoldable pub warn : {A : Type 0} → String → Action S A → Action S A
  warn reason m = on_error (λ e. record_warning r reason (failure e)) m

  -- After `count` workloads were scaled to zero.
  unfoldable pub note_scaled : Progress → ℕ → Action S (Unit {0}) → Action S Progress
  note_scaled p count announce =
      if ltb 0 count
      then sense r.client.now >>= (λ t. announce >>= λ _.
          pure (record p { last_enf_at = some t; last_enf_op = enforcement_op_scale_to_zero }))
      else pure p

  -- The branch `if atBudgetRisk`.
  unfoldable pub scale_down : Progress → Action S Progress
  scale_down p =
      let reason = enforcement_scale_reason p.quota_at_hard_limit p.cost_over_budget in
      do
        count ←
            warn "ScaleToZeroFailed"
              (scale_workloads_to_zero r p.budget_namespace.spec.namespace_name)
        note_scaled p count (
            record_normal r "ScaledToZero"
              (shown (counting_for "Scaled %d workload(s) to zero (%s)" count reason)))

  unfoldable pub note_restored : Progress → ℕ → Action S Progress
  note_restored p count =
      if ltb 0 count
      then sense r.client.now >>= (λ t.
        record_normal r "RestoredReplicas"
          (shown (counting "Restored %d workload(s) from saved replica counts" count))
        >>= λ _. pure (record p { last_enf_at = some t; last_enf_op = enforcement_op_restore }))
      else pure p

  unfoldable pub defer_for_cost : Progress → Action S Progress
  defer_for_cost p = do
    record_normal r "RecoveryDeferred"
        (shown (text "Restore deferred: billed spend is still at or above maxSpendUSD"))
    pure p

  unfoldable pub restore_now : Progress → Action S Progress
  restore_now p =
      warn "RestoreFailed" (restore_scaled_workloads r p.budget_namespace.spec.namespace_name)
      >>= note_restored p

  unfoldable pub defer_for_cooldown : Progress → Duration → Time → Action S Progress
  defer_for_cooldown p cooldown now = do
    record_normal r "RecoveryDeferred" (
        shown (
          lasting "Restore deferred for %s (enforcement cooldown after scale-to-zero)"
            (truncated (remaining_cooldown p.last_enf_at cooldown now))))
    pure (record p { recovery_deferred = true })

  -- The chain `if !okCost … else if canRestoreAfterScaleDown … else …`.
  unfoldable pub restore_or_defer : Progress → Duration → Time → Bool → Action S Progress
  restore_or_defer p cooldown now within_cost =
      if not within_cost
      then defer_for_cost p
      else if can_restore_after_scale_down p.last_enf_op p.last_enf_at cooldown now
      then restore_now p
      else defer_for_cooldown p cooldown now

  -- The branch `else if restoreOnRecoveryEnabled`.
  unfoldable pub recover : Progress → Duration → F → Time → Action S Progress
  recover p cooldown cost_spend now = do
    pending ← workloads_pending_restore r p.budget_namespace.spec.namespace_name
    if not pending
        then pure p
        else checked (λ e. e) (within_cost_budget_for_restore r p.budget_namespace.spec cost_spend)
          >>= restore_or_defer p cooldown now

  -- From costBudgetMaxUSD on.
  unfoldable pub compare_spend : Progress → F × BudgetNamespace → Action S (F × Progress)
  compare_spend p (spend, bn) = do
    max_usd ← checked (λ e. e) (cost_budget_max_usd r p.budget_namespace.spec.cost_budget)
    pure (
      spend,
      record p {
        budget_namespace = bn;
        cost_budget_evaluated = true;
        cost_over_budget = spend_at_or_over_max r spend max_usd;
      },
    )

  unfoldable pub evaluate_enabled : Progress → Time → Action S (F × Progress)
  evaluate_enabled p now =
      warn "CostBudgetQueryFailed" (resolve_namespace_spend_usd r p.budget_namespace now)
      >>= compare_spend p

  -- The spend and whether it is over budget; zero where there is no cost budget.
  unfoldable pub evaluate_cost : Progress → Time → Action S (F × Progress)
  evaluate_cost p now =
      if not (cost_budget_enabled p.budget_namespace.spec)
      then pure (r.floats.zero_float, p)
      else evaluate_enabled p now

  unfoldable pub act_on_budget : Duration → Time → F × Progress → Action S Progress
  act_on_budget cooldown now (cost_spend, p) =
      if at_budget_risk p
      then scale_down p
      else if restore_on_recovery_enabled p.budget_namespace.spec
      then recover p cooldown cost_spend now
      else pure p

  -- From the reading of the quota on.
  unfoldable pub enforce_with_quota :
      Progress → Duration → Time → ResourceQuota Q → Action S Progress
  enforce_with_quota p cooldown now rq =
      evaluate_cost
        (record p {
          quota_evaluated = true;
          quota_at_hard_limit = quota_used_at_or_over_hard r.quantities rq;
        })
        now
      >>= act_on_budget cooldown now

  -- The block `if shouldScaleDeploymentsToZero(…) { … }` of a live BudgetNamespace.
  unfoldable pub enforce_budget : Progress → Time → Action S Progress
  enforce_budget p now = do
    cooldown ← warn "InvalidEnforcementCooldown" (enforcement_cooldown r p.budget_namespace.spec)
    found ← fetch (
        r.client.get_resource_quota (record {
          namespace = p.budget_namespace.spec.namespace_name;
          name = resource_quota_name;
        }))
    rq ← checked (λ e. wrap "get ResourceQuota %q for usage check: %w" (api_error e)) found
    enforce_with_quota p cooldown now rq

  -- The branch of the grace period.
  unfoldable pub scale_in_grace : Progress → Action S Progress
  scale_in_grace p = do
    count ←
        warn "ScaleToZeroFailed" (scale_workloads_to_zero r p.budget_namespace.spec.namespace_name)
    note_scaled p count (
        record_normal r "ScaledToZero"
          (shown (counting "Scaled %d workload(s) to zero (TTL grace)" count)))

  -- `err != nil && !apierrors.IsNotFound(err)`
  unfoldable pub delete_checked : Result ApiError (Unit {0}) → Action S (Unit {0})
  delete_checked (ok done) = pure tt
  delete_checked (err not_found) = pure tt
  delete_checked (err conflict) = fail (wrap "delete expired namespace %q: %w" (api_error conflict))
  delete_checked (err (other_error what)) =
      fail (wrap "delete expired namespace %q: %w" (api_error (other_error what)))

  -- The branch `else if deleting`.
  unfoldable pub delete_expired : String → Action S (Unit {0})
  delete_expired namespace = do
    sent ← send (delete_namespace namespace) (r.client.delete_namespace namespace)
    delete_checked sent
