-- ===== src/Controller/Reconcile/Telling.antt =====
-- The records of the branches of Reconcile, from the enforcement on.
use costguard_operator.Base.{◌≡◌, refl, String, Bool, true, not, ◌&&◌, Option, if◌then◌else◌}
use costguard_operator.Go.Time.{Time, Duration}
use costguard_operator.Api.{BudgetNamespace, BudgetNamespaceSpec}
use costguard_operator.Kube.{
  ApiError, ResourceQuota, Result, ok, err, not_found, conflict, other_error, wrap, api_error,
}
use costguard_operator.Kube.Action.{World, Action, pure, fetch, checked, ◌>>=◌}
use costguard_operator.Kube.Action.Emits.{Emits, emits_rules}
use costguard_operator.Controller.Reconciler.{Reconciler, resource_quota_name}
use costguard_operator.Controller.Restore.{
  restore_on_recovery_enabled, workloads_pending_restore, enforcement_cooldown,
  can_restore_after_scale_down,
}
use costguard_operator.Controller.Cost.{within_cost_budget_for_restore}
use costguard_operator.Controller.Ttl.{Ttl}
use costguard_operator.Controller.Quota.{should_scale_deployments_to_zero}
use costguard_operator.Controller.Ensure.{
  parsed, must_parse, apply_namespace, apply_resource_quota, apply_limit_range, ensure_resources,
}
use costguard_operator.Controller.Enforce.{
  Progress, start_progress, at_budget_risk, scale_down, defer_for_cost, defer_for_cooldown,
  restore_or_defer, recover, act_on_budget, evaluate_cost, enforce_with_quota, enforce_budget,
  delete_checked, delete_expired, warn,
}
use costguard_operator.Controller.Reconcile.{enforce_live, act_live, act_deleting, act}
use costguard_operator.Controller.Reconcile.Emissions.{
  record_normal-Emits, warn-Emits, workloads_pending_restore-Emits, enforcement_cooldown-Emits,
}
use costguard_operator.Controller.Reconcile.OnlyScaling.{
  evaluate_cost-Emits, evaluate_cost-Recorded, Recorded,
}
use costguard_operator.Controller.Reconcile.Recording.{
  NoPatch, Told, Tells, Tells-pure, Tells-if, Tells-after, Tells-quiet,
}
use costguard_operator.Controller.Reconcile.Recorded.{
  scale_down-Tells, scale_in_grace-Tells, restore_now-Tells,
}

module _ {F Q S : Type 0} (r : Reconciler F Q S) (op : String) (at : Option Time) where
  defer_for_cost-Tells :
      (p : Progress) → p.last_enf_op ≡ op → p.last_enf_at ≡ at → Tells op at (defer_for_cost r p)
  unfolding defer_for_cost
  defer_for_cost-Tells p same_op same_at =
      Tells-quiet op at _ (λ _. pure p) (record_normal-Emits r NoPatch _ _)
        (λ _. Tells-pure op at p same_op same_at)

  defer_for_cooldown-Tells :
      (p : Progress) (cooldown : Duration) (now : Time)
      → p.last_enf_op ≡ op
      → p.last_enf_at ≡ at
      → Tells op at (defer_for_cooldown r p cooldown now)
  unfolding defer_for_cooldown
  defer_for_cooldown-Tells p cooldown now same_op same_at =
      Tells-quiet op at _ (λ _. pure (record p { recovery_deferred = true }))
        (record_normal-Emits r NoPatch _ _)
        (λ _. Tells-pure op at (record p { recovery_deferred = true }) same_op same_at)

  restore_or_defer-Tells :
      (p : Progress) (cooldown : Duration) (now : Time) (within_cost : Bool)
      → p.last_enf_op ≡ op
      → p.last_enf_at ≡ at
      → Tells op at (restore_or_defer r p cooldown now within_cost)
  unfolding restore_or_defer
  restore_or_defer-Tells p cooldown now within_cost same_op same_at =
      Tells-if op at (not within_cost) _ _ (λ _. defer_for_cost-Tells p same_op same_at)
        (λ _.
          Tells-if op at (can_restore_after_scale_down p.last_enf_op p.last_enf_at cooldown now) _ _
            (λ _. restore_now-Tells r op at p same_op same_at)
            (λ _. defer_for_cooldown-Tells p cooldown now same_op same_at))

  recover-Tells :
      (p : Progress) (cooldown : Duration) (spend : F) (now : Time)
      → p.last_enf_op ≡ op
      → p.last_enf_at ≡ at
      → Tells op at (recover r p cooldown spend now)
  unfolding recover
  recover-Tells p cooldown spend now same_op same_at =
      Tells-quiet op at (workloads_pending_restore r p.budget_namespace.spec.namespace_name) decide
        (workloads_pending_restore-Emits r NoPatch p.budget_namespace.spec.namespace_name)
        (λ pending.
          Tells-if op at (not pending) (pure p) _ (λ _. Tells-pure op at p same_op same_at)
            (λ _.
              Tells-quiet op at
                (checked (λ e. e) (within_cost_budget_for_restore r p.budget_namespace.spec spend))
                (restore_or_defer r p cooldown now) (search emits_rules)
                (λ within_cost. restore_or_defer-Tells p cooldown now within_cost same_op same_at)))
    where
      decide : Bool → Action S Progress
      decide pending =
          if not pending
          then pure p
          else checked (λ e. e) (within_cost_budget_for_restore r p.budget_namespace.spec spend)
            >>= restore_or_defer r p cooldown now

  act_on_budget-Tells :
      (cooldown : Duration) (now : Time) (x : F × Progress)
      → Recorded r op at x.1
      → Tells op at (act_on_budget r cooldown now x)
  unfolding act_on_budget
  act_on_budget-Tells cooldown now (spend, p) (same_op, same_at) =
      Tells-if op at (at_budget_risk p) (scale_down r p) _
        (λ _. scale_down-Tells r op at p same_op same_at)
        (λ _.
          Tells-if op at (restore_on_recovery_enabled p.budget_namespace.spec)
            (recover r p cooldown spend now) (pure p)
            (λ _. recover-Tells p cooldown spend now same_op same_at)
            (λ _. Tells-pure op at p same_op same_at))

  enforce_with_quota-Tells :
      (p : Progress) (cooldown : Duration) (now : Time) (rq : ResourceQuota Q)
      → p.last_enf_op ≡ op
      → p.last_enf_at ≡ at
      → Tells op at (enforce_with_quota r p cooldown now rq)
  unfolding enforce_with_quota
  enforce_with_quota-Tells p cooldown now rq same_op same_at =
      Tells-after op at (λ (x : F × Progress). Recorded r op at x.1) (evaluate_cost r _ now)
        (act_on_budget r cooldown now) (evaluate_cost-Emits r NoPatch (λ n. tt) _ now)
        (evaluate_cost-Recorded r op at _ now (same_op, same_at)) (act_on_budget-Tells cooldown now)

  enforce_budget-Tells :
      (p : Progress) (now : Time)
      → p.last_enf_op ≡ op
      → p.last_enf_at ≡ at
      → Tells op at (enforce_budget r p now)
  unfolding enforce_budget
  enforce_budget-Tells p now same_op same_at =
      Tells-quiet op at
        (warn r "InvalidEnforcementCooldown" (enforcement_cooldown r p.budget_namespace.spec)) next
        (warn-Emits r NoPatch _ _ (enforcement_cooldown-Emits r NoPatch p.budget_namespace.spec))
        next-Tells
    where
      found_quota : Action S (Result ApiError (ResourceQuota Q))
      found_quota = fetch (
          r.client.get_resource_quota (record {
            namespace = p.budget_namespace.spec.namespace_name;
            name = resource_quota_name;
          }))

      read_quota : Result ApiError (ResourceQuota Q) → Action S (ResourceQuota Q)
      read_quota = checked (λ e. wrap "get ResourceQuota %q for usage check: %w" (api_error e))

      next : Duration → Action S Progress
      next cooldown =
          found_quota >>= λ found. read_quota found >>= enforce_with_quota r p cooldown now

      next-Tells : (cooldown : Duration) → Tells op at (next cooldown)
      next-Tells cooldown =
          Tells-quiet op at found_quota
            (λ found. read_quota found >>= enforce_with_quota r p cooldown now) (search emits_rules)
            (λ found.
              Tells-quiet op at (read_quota found) (enforce_with_quota r p cooldown now)
                (search emits_rules)
                (λ rq. enforce_with_quota-Tells p cooldown now rq same_op same_at))

module _ {F Q S : Type 0} (r : Reconciler F Q S) where
  ensure_resources-NoPatch : (spec : BudgetNamespaceSpec) → Emits NoPatch (ensure_resources r spec)
  unfolding ensure_resources apply_namespace apply_resource_quota apply_limit_range parsed
      must_parse
  ensure_resources-NoPatch spec = search emits_rules depth 12

  delete_checked-NoPatch :
      (answer : Result ApiError (Unit {0})) → Emits NoPatch (delete_checked r answer)
  unfolding delete_checked
  delete_checked-NoPatch (ok u) = search emits_rules
  delete_checked-NoPatch (err not_found) = search emits_rules
  delete_checked-NoPatch (err conflict) = search emits_rules
  delete_checked-NoPatch (err (other_error what)) = search emits_rules

  delete_expired-NoPatch : (namespace : String) → Emits NoPatch (delete_expired r namespace)
  unfolding delete_expired
  delete_expired-NoPatch namespace = search (emits_rules, delete_checked-NoPatch) depth 8

  module _ (bn : BudgetNamespace) where
    abbrev ToldOf : Action S Progress → Type 0
    ToldOf m = Tells bn.status.last_enforcement_operation bn.status.last_enforcement_at m

    started : ToldOf (pure (start_progress bn))
    unfolding start_progress
    started = Tells-pure _ _ (start_progress bn) refl refl

    enforce_live-Tells : (now : Time) → ToldOf (enforce_live r bn now)
    unfolding enforce_live start_progress
    enforce_live-Tells now =
        Tells-if _ _ (should_scale_deployments_to_zero bn.spec) _ _
          (λ _. enforce_budget-Tells r _ _ (start_progress bn) now refl refl) (λ _. started)

    act_live-Tells : (now : Time) → ToldOf (act_live r bn now)
    unfolding act_live
    act_live-Tells now =
        Tells-quiet _ _ (ensure_resources r bn.spec) (λ _. enforce_live r bn now)
          (ensure_resources-NoPatch bn.spec) (λ _. enforce_live-Tells now)

    act_deleting-Tells : ToldOf (act_deleting r bn)
    unfolding act_deleting
    act_deleting-Tells =
        Tells-quiet _ _ (delete_expired r bn.spec.namespace_name) (λ _. pure (start_progress bn))
          (delete_expired-NoPatch bn.spec.namespace_name) (λ _. started)

    act-Tells : (now : Time) (ttl : Ttl) → ToldOf (act r bn now ttl)
    unfolding act start_progress
    act-Tells now ttl =
        Tells-if _ _ (not ttl.expired) _ _ (λ _. act_live-Tells now)
          (λ _.
            Tells-if _ _ (not ttl.deleting && should_scale_deployments_to_zero bn.spec) _ _
              (λ _. scale_in_grace-Tells r _ _ (start_progress bn) refl refl)
              (λ _. Tells-if _ _ ttl.deleting _ _ (λ _. act_deleting-Tells) (λ _. started)))

  -- Where the branches of Reconcile succeed, the enforcement that they leave recorded is what they
  -- did: no workload was patched and the record is the one that was read, or at least one was
  -- patched, each patch scaled a workload to zero, and ScaleToZero is recorded with a time, or at
  -- least one was patched, each patch restored one, and Restore is recorded with a time.
  pub recorded_as_done :
      (bn : BudgetNamespace) (now : Time) (ttl : Ttl) (w w' : World S) (p : Progress)
      → act r bn now ttl w ≡ (ok p, w')
      → Told bn.status.last_enforcement_operation bn.status.last_enforcement_at w.calls p w'.calls
  recorded_as_done bn now ttl w w' p e = ((act-Tells bn now ttl).told w).of_run w' p e
