-- ===== src/Examples/Composed.antt =====
-- Whole reconciliations of the small cluster: what they return and what they write.
use costguard_operator.Go.Time.{Duration}
use costguard_operator.Controller.Status.Final.{
  SetsConditions, find_condition, or_else, final_conditions,
}
use costguard_operator.Base.{
  subst, arith, ap, eq_refl, Bool, ◌≡◌, refl, false, [], none, some, pos, ◌+ℤ◌, if◌then◌else◌,
  lookup, ◌-ℤ◌,
}
use costguard_operator.Api.{BudgetNamespace}
use costguard_operator.Kube.{Error, ok, err, Result}
use costguard_operator.Kube.Action.{World}
use costguard_operator.Controller.Reconcile.{
  ReconcileResult, reconcile, reconcile_found, reconcile_checked, reconcile_valid, reconcile_at,
  act_and_write, write_status, status_result, act, act_live, enforce_live,
}
use costguard_operator.Controller.Quota.{
  should_scale_deployments_to_zero, quota_used_at_or_over_hard,
}
use costguard_operator.Controller.Cost.{
  validate_cost_budget_spec, cost_budget_enabled, resolve_namespace_spend_usd, resolve_valid,
  resolve_configured, is_throttled, cost_budget_query_interval, cost_budget_max_usd,
}
use costguard_operator.Controller.Ttl.{
  Ttl, no_ttl, ttl_state, ttl_at, ttl_requeue, until, ttl_target, is_expired, is_deleting,
}
use costguard_operator.Go.Duration.{parse_duration}
use costguard_operator.Controller.Ensure.{
  ensure_resources, apply_namespace, apply_resource_quota, parsed, must_parse, apply_limit_range,
}
use costguard_operator.Controller.Reconcile.Bounds.{InBounds, reconcile-InBounds}
use costguard_operator.Controller.Reconcile.StatusWrite.{WritesOnce, status_once}
use costguard_operator.Controller.Enforce.{
  Progress, start_progress, enforce_budget, warn, enforce_with_quota, evaluate_cost,
  evaluate_enabled, compare_spend, act_on_budget, scale_down, note_scaled,
}
use costguard_operator.Controller.Status.{new_conditions, with_new_status}
use costguard_operator.Controller.Restore.{enforcement_cooldown}
use costguard_operator.Go.Text.{trim_space}
use costguard_operator.Controller.Scale.{
  scale_workloads_to_zero, scale_deployments_to_zero, scaled_to_zero, scale_stateful_sets_to_zero,
  scale_items,
}
use costguard_operator.Controller.Patching.{patch_items, patch_workload, list_workloads}
use costguard_operator.Controller.Reconciler.{default_enforcement_cooldown, record_normal}
use costguard_operator.Kube.Action.Emits.{Emits}
use costguard_operator.Controller.Restore.Cooldown.{CooldownRuns}
use costguard_operator.Controller.Reconcile.OnlyScaling.{OnlyScales}
use costguard_operator.Controller.Reconcile.Cooling.{no_restore_while_cooling}
use costguard_operator.Controller.Reconcile.Recording.{Told}
use costguard_operator.Controller.Reconcile.Telling.{recorded_as_done}
use costguard_operator.Examples.Cluster.{
  Cluster, reconciler, spec, budget_namespace, cluster, at_cluster, request,
}

status_once_example :
    WritesOnce []
      (reconcile reconciler request (at_cluster cluster)).0
      (reconcile reconciler request (at_cluster cluster)).1.calls
status_once_example =
    status_once reconciler request (at_cluster cluster) budget_namespace cluster refl

-- Without enforcement and without a cost budget.
abbrev calm_namespace : BudgetNamespace
calm_namespace = record budget_namespace {
  spec = record spec {
    cost_budget = none;
    enforcement = record spec.enforcement { enabled = false };
  };
}

abbrev calm_cluster : Cluster
calm_cluster = record cluster { resource = ok calm_namespace }

abbrev result_of : {E : Type 0} → Result E ReconcileResult → ReconcileResult
result_of (ok r) = r
result_of (err e) = record { requeue = false; requeue_after = pos 0 }

abbrev calm_run : Result Error ReconcileResult × World Cluster
calm_run = reconcile reconciler request (at_cluster calm_cluster)

calm_result : calm_run ≡ (ok (result_of calm_run.0), calm_run.1)
unfolding reconcile reconcile_found reconcile_checked reconcile_valid reconcile_at act_and_write
    write_status status_result act act_live enforce_live should_scale_deployments_to_zero
    validate_cost_budget_spec ttl_state ttl_at ttl_requeue until ttl_target is_expired is_deleting
    parse_duration ensure_resources apply_namespace apply_resource_quota parsed must_parse
    apply_limit_range ◌+ℤ◌
calm_result = refl

reconcile-InBounds_example : InBounds (result_of calm_run.0)
reconcile-InBounds_example =
    reconcile-InBounds reconciler request (at_cluster calm_cluster) calm_run.1
      (result_of calm_run.0) calm_result

abbrev value_or : {A : Type 0} → A → Result Error A → A
value_or d (ok a) = a
value_or d (err e) = d

-- The TTL block and then the branches on the cluster, whose quota is at its limit.
abbrev ttl_run : Result Error Ttl × World Cluster
ttl_run = ttl_state reconciler "1h" (pos 500) (pos 2000) (at_cluster cluster)

abbrev act_run : Result Error Progress × World Cluster
act_run = act reconciler budget_namespace (pos 2000) (value_or no_ttl ttl_run.0) ttl_run.1

abbrev progress : Progress
progress = value_or (start_progress budget_namespace) act_run.0

act_result : act_run ≡ (ok progress, act_run.1)
unfolding act ttl_state parse_duration ttl_at ttl_requeue ttl_target ◌+ℤ◌ until act_live
    ensure_resources apply_namespace apply_resource_quota parsed must_parse apply_limit_range
    enforce_live should_scale_deployments_to_zero enforce_budget warn enforcement_cooldown
    start_progress enforce_with_quota evaluate_cost cost_budget_enabled evaluate_enabled
    resolve_namespace_spend_usd resolve_valid validate_cost_budget_spec trim_space
    resolve_configured is_throttled cost_budget_query_interval compare_spend cost_budget_max_usd
    act_on_budget quota_used_at_or_over_hard scale_down scale_workloads_to_zero
    scale_deployments_to_zero patch_items scaled_to_zero patch_workload scale_stateful_sets_to_zero
    note_scaled record_normal scale_items list_workloads lookup ◌-ℤ◌
act_result = refl

cluster-SetsConditions : SetsConditions reconciler.client.set_status_condition
unfolding find_condition
cluster-SetsConditions = record {
  is_set = λ s cs c.
      ap (λ (b : Bool). if b then some c else find_condition c.condition_type cs)
        (eq_refl c.condition_type);
  keeps_others =
      λ s cs c t differs. ap (λ (b : Bool). if b then some c else find_condition t cs) differs;
}

final_conditions_example :
    find_condition "OverBudget"
      (with_new_status reconciler cluster progress (value_or no_ttl ttl_run.0)).status.conditions
    ≡ or_else
        (find_condition "OverBudget" (new_conditions progress (value_or no_ttl ttl_run.0)))
        (find_condition "OverBudget" progress.budget_namespace.status.conditions)
final_conditions_example =
    final_conditions reconciler cluster-SetsConditions cluster progress (value_or no_ttl ttl_run.0)
      "OverBudget"

-- One nanosecond after a scale-down, with the default cooldown.
abbrev cooling_namespace : BudgetNamespace
cooling_namespace = record budget_namespace {
  status = record budget_namespace.status {
    last_enforcement_at = some (pos 1999);
    last_enforcement_operation = "ScaleToZero";
  };
}

default_runs :
    (c : Duration)
    → default_enforcement_cooldown ≡ c
    → CooldownRuns "ScaleToZero" (some (pos 1999)) c (pos 2000)
unfolding ◌+ℤ◌
default_runs c e =
    subst (λ (d : Duration). CooldownRuns "ScaleToZero" (some (pos 1999)) d (pos 2000)) e
      (refl, omega arith)

cooling_runs :
    (c : Duration) (w w' : World Cluster)
    → enforcement_cooldown reconciler cooling_namespace.spec w ≡ (ok c, w')
    → CooldownRuns "ScaleToZero" (some (pos 1999)) c (pos 2000)
unfolding enforcement_cooldown
cooling_runs c w w' e =
    default_runs c (ap (λ (q : Result Error Duration × World Cluster). value_or c q.0) e)

no_restore_while_cooling_example :
    Emits OnlyScales (act reconciler cooling_namespace (pos 2000) (value_or no_ttl ttl_run.0))
no_restore_while_cooling_example =
    no_restore_while_cooling reconciler cooling_namespace (pos 2000) (value_or no_ttl ttl_run.0)
      cooling_runs

recorded_as_done_example :
    Told budget_namespace.status.last_enforcement_operation
      budget_namespace.status.last_enforcement_at ttl_run.1.calls progress act_run.1.calls
recorded_as_done_example =
    recorded_as_done reconciler budget_namespace (pos 2000) (value_or no_ttl ttl_run.0) ttl_run.1
      act_run.1 progress act_result
