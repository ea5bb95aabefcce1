-- ===== src/Controller/Reconcile/Branches.antt =====
-- The requests of each branch of Reconcile.
use costguard_operator.Base.{◌≡◌, refl, sym, ap, ◌∙◌, ◌⊎◌, inl, inr, Bool, true, false}
use costguard_operator.Go.Time.{Time, Duration}
use costguard_operator.Api.{BudgetNamespace, BudgetNamespaceSpec}
use costguard_operator.Kube.{
  ApiError, ResourceQuota, not_found, conflict, other_error, Result, ok, err, not_found, conflict,
  other_error,
}
use costguard_operator.Kube.Action.{Call}
use costguard_operator.Kube.Action.Emits.{
  Emits, emits_rules, Emits-bind, Emits-bind_ensured, Emits-pure, Emits-if, Emits-send,
}
use costguard_operator.Controller.Reconciler.{Reconciler}
use costguard_operator.Controller.Scale.{scale_workloads_to_zero}
use costguard_operator.Controller.Restore.{restore_on_recovery_enabled}
use costguard_operator.Controller.Quota.{should_scale_deployments_to_zero}
use costguard_operator.Controller.Ensure.{
  parsed, must_parse, apply_namespace, apply_resource_quota, apply_limit_range, ensure_resources,
}
use costguard_operator.Controller.Enforce.{
  Progress, start_progress, note_restored, scale_down, restore_or_defer, act_on_budget,
  delete_checked, recover, evaluate_cost, enforce_budget, scale_in_grace, delete_expired,
  restore_now, defer_for_cost, defer_for_cooldown, enforce_with_quota,
}
use costguard_operator.Controller.Reconcile.Permitted.{PermitsAct}
use costguard_operator.Controller.Reconcile.Emissions.{
  base_rules, scale_workloads_to_zero-Emits, restore_scaled_workloads-Emits,
  workloads_pending_restore-Emits, enforcement_cooldown-Emits, note_scaled-Emits,
  note_restored-Emits, record_normal-Emits, warn-Emits,
}
use costguard_operator.Controller.Reconcile.SameSpec.{SameSpec, evaluate_cost-SameSpec}
use costguard_operator.Controller.Reconcile.SpendRequests.{evaluate_cost-Emits}

module _ {F Q S : Type 0} (r : Reconciler F Q S) (spec : BudgetNamespaceSpec)
    (expired deleting : Bool) where
  abbrev Permitted : Call → Type 0
  Permitted = PermitsAct spec expired deleting

  scales :
      (p : Progress)
      → SameSpec spec p.budget_namespace
      → should_scale_deployments_to_zero spec ≡ true
      → (expired ≡ false) ⊎ (deleting ≡ false)
      → Emits Permitted (scale_workloads_to_zero r p.budget_namespace.spec.namespace_name)
  scales p same on window =
      scale_workloads_to_zero-Emits r Permitted p.budget_namespace.spec.namespace_name
        (λ kind w w' e.
          (ap (λ (s : BudgetNamespaceSpec). s.namespace_name) same, on, inl (window, e)))

  scale_down-Emits :
      (p : Progress)
      → SameSpec spec p.budget_namespace
      → should_scale_deployments_to_zero spec ≡ true
      → expired ≡ false
      → Emits Permitted (scale_down r p)
  unfolding scale_down
  scale_down-Emits p same on live =
      Emits-bind _ _ (warn-Emits r Permitted _ _ (scales p same on (inl live)))
        (λ n. note_scaled-Emits r Permitted p n _ (record_normal-Emits r Permitted _ _))

  pub scale_in_grace-Emits :
      (p : Progress)
      → SameSpec spec p.budget_namespace
      → should_scale_deployments_to_zero spec ≡ true
      → deleting ≡ false
      → Emits Permitted (scale_in_grace r p)
  unfolding scale_in_grace
  scale_in_grace-Emits p same on grace =
      Emits-bind _ _ (warn-Emits r Permitted _ _ (scales p same on (inr grace)))
        (λ n. note_scaled-Emits r Permitted p n _ (record_normal-Emits r Permitted _ _))

  delete_checked-Emits :
      (answer : Result ApiError (Unit {0})) → Emits Permitted (delete_checked r answer)
  unfolding delete_checked
  delete_checked-Emits (ok done) = search emits_rules
  delete_checked-Emits (err not_found) = search emits_rules
  delete_checked-Emits (err conflict) = search emits_rules
  delete_checked-Emits (err (other_error what)) = search emits_rules

  restore_now-Emits :
      (p : Progress)
      → SameSpec spec p.budget_namespace
      → should_scale_deployments_to_zero spec ≡ true
      → restore_on_recovery_enabled spec ≡ true
      → expired ≡ false
      → Emits Permitted (restore_now r p)
  unfolding restore_now
  restore_now-Emits p same on restores live =
      Emits-bind _ (note_restored r p)
        (warn-Emits r Permitted _ _ (
          restore_scaled_workloads-Emits r Permitted p.budget_namespace.spec.namespace_name
            (λ kind w w' e. (
              ap (λ (s : BudgetNamespaceSpec). s.namespace_name) same,
              on,
              inr (live, restores, e),
            ))))
        (note_restored-Emits r Permitted p)

  defer_for_cost-Emits : (p : Progress) → Emits Permitted (defer_for_cost r p)
  unfolding defer_for_cost
  defer_for_cost-Emits p = search base_rules

  defer_for_cooldown-Emits :
      (p : Progress) (cooldown : Duration) (now : Time)
      → Emits Permitted (defer_for_cooldown r p cooldown now)
  unfolding defer_for_cooldown
  defer_for_cooldown-Emits p cooldown now = search base_rules

  restore_or_defer-Emits :
      (p : Progress) (cooldown : Duration) (now : Time) (within_cost : Bool)
      → SameSpec spec p.budget_namespace
      → should_scale_deployments_to_zero spec ≡ true
      → restore_on_recovery_enabled spec ≡ true
      → expired ≡ false
      → Emits Permitted (restore_or_defer r p cooldown now within_cost)
  unfolding restore_or_defer
  restore_or_defer-Emits p cooldown now within_cost same on restores live =
      search (emits_rules, restore_now-Emits, defer_for_cost-Emits, defer_for_cooldown-Emits)

  recover-Emits :
      (p : Progress) (cooldown : Duration) (spend : F) (now : Time)
      → SameSpec spec p.budget_namespace
      → should_scale_deployments_to_zero spec ≡ true
      → restore_on_recovery_enabled spec ≡ true
      → expired ≡ false
      → Emits Permitted (recover r p cooldown spend now)
  unfolding recover
  recover-Emits p cooldown spend now same on restores live =
      search (base_rules, workloads_pending_restore-Emits r Permitted, restore_or_defer-Emits) depth
        7

  act_on_budget-Emits :
      (cooldown : Duration) (now : Time) (x : F × Progress)
      → SameSpec spec x.1.budget_namespace
      → should_scale_deployments_to_zero spec ≡ true
      → expired ≡ false
      → Emits Permitted (act_on_budget r cooldown now x)
  unfolding act_on_budget
  act_on_budget-Emits cooldown now (spend, p) same on live =
      Emits-if _ _ _ (λ _. scale_down-Emits p same on live)
        (λ _.
          Emits-if _ _ _
            (λ restores.
              recover-Emits p cooldown spend now same on
                (ap restore_on_recovery_enabled (sym same) ∙ restores) live)
            (λ _. Emits-pure p))

  enforce_with_quota-Emits :
      (p : Progress) (cooldown : Duration) (now : Time) (rq : ResourceQuota Q)
      → SameSpec spec p.budget_namespace
      → should_scale_deployments_to_zero spec ≡ true
      → expired ≡ false
      → Emits Permitted (enforce_with_quota r p cooldown now rq)
  unfolding enforce_with_quota
  enforce_with_quota-Emits p cooldown now rq same on live =
      Emits-bind_ensured (evaluate_cost r _ now) (act_on_budget r cooldown now)
        (evaluate_cost-Emits r spec expired deleting _ now same on live)
        (evaluate_cost-SameSpec r spec _ now same)
        (λ x h. act_on_budget-Emits cooldown now x h on live)

  pub enforce_budget-Emits :
      (p : Progress) (now : Time)
      → SameSpec spec p.budget_namespace
      → should_scale_deployments_to_zero spec ≡ true
      → expired ≡ false
      → Emits Permitted (enforce_budget r p now)
  unfolding enforce_budget
  enforce_budget-Emits p now same on live =
      search (base_rules, enforcement_cooldown-Emits r Permitted, enforce_with_quota-Emits) depth 8

  pub ensure_resources-Emits : expired ≡ false → Emits Permitted (ensure_resources r spec)
  unfolding ensure_resources apply_namespace apply_resource_quota apply_limit_range parsed
      must_parse
  ensure_resources-Emits live = search (emits_rules, live) depth 12

  pub delete_expired-Emits :
      expired ≡ true → deleting ≡ true → Emits Permitted (delete_expired r spec.namespace_name)
  unfolding delete_expired
  delete_expired-Emits gone due =
      Emits-bind _ (delete_checked r) (Emits-send _ _ (refl, gone, due)) delete_checked-Emits

  pub start-SameSpec :
      (bn : BudgetNamespace) → SameSpec spec bn → SameSpec spec (start_progress bn).budget_namespace
  unfolding start_progress
  start-SameSpec bn same = same
