-- ===== src/Controller/Reconcile/Cooling.antt =====
-- The branches of Reconcile while the cooldown after a recorded scale-down runs.
use costguard_operator.Base.{◌≡◌, refl, sym, subst, String, Option}
use costguard_operator.Go.Time.{Time, Duration}
use costguard_operator.Api.{BudgetNamespace, BudgetNamespaceSpec}
use costguard_operator.Kube.{
  ApiError, ResourceQuota, not_found, conflict, other_error, Result, ok, err, failure, wrap,
  api_error,
}
use costguard_operator.Kube.Action.{Action, World, fetch, checked, ◌>>=◌}
use costguard_operator.Kube.Action.Emits.{Emits, emits_rules, Emits-bind_ensured}
use costguard_operator.Kube.Action.Ensures.{Ensures, Ensures-on_error}
use costguard_operator.Controller.Reconciler.{Reconciler, record_warning, resource_quota_name}
use costguard_operator.Controller.Restore.{enforcement_cooldown}
use costguard_operator.Controller.Restore.Cooldown.{CooldownRuns}
use costguard_operator.Controller.Ttl.{Ttl}
use costguard_operator.Controller.Ensure.{
  parsed, must_parse, apply_namespace, apply_resource_quota, apply_limit_range, ensure_resources,
}
use costguard_operator.Controller.Enforce.{
  Progress, start_progress, act_on_budget, delete_checked, evaluate_cost, enforce_budget,
  delete_expired, enforce_with_quota, warn,
}
use costguard_operator.Controller.Reconcile.{enforce_live, act_live, act_deleting, act}
use costguard_operator.Controller.Reconcile.Emissions.{enforcement_cooldown-Emits, warn-Emits}
use costguard_operator.Controller.Reconcile.OnlyScaling.{
  OnlyScales, Recorded, evaluate_cost-Recorded, scale_in_grace-OnlyScales, act_on_budget-OnlyScales,
  evaluate_cost-OnlyScales,
}

module _ {F Q S : Type 0} (r : Reconciler F Q S) where
  cooling_after :
      (op : String) (at : Option Time) (cooldown : Duration) (now : Time) (p : Progress)
      → CooldownRuns op at cooldown now
      → Recorded r op at p
      → CooldownRuns p.last_enf_op p.last_enf_at cooldown now
  cooling_after op at cooldown now p runs (same_op, same_at) =
      subst (λ (o : String). CooldownRuns o p.last_enf_at cooldown now) (sym same_op)
        (subst (λ (a : Option Time). CooldownRuns op a cooldown now) (sym same_at) runs)

  enforce_with_quota-OnlyScales :
      (p : Progress) (cooldown : Duration) (now : Time) (rq : ResourceQuota Q)
      → CooldownRuns p.last_enf_op p.last_enf_at cooldown now
      → Emits OnlyScales (enforce_with_quota r p cooldown now rq)
  unfolding enforce_with_quota
  enforce_with_quota-OnlyScales p cooldown now rq runs =
      Emits-bind_ensured (evaluate_cost r _ now) (act_on_budget r cooldown now)
        (evaluate_cost-OnlyScales r _ now)
        (evaluate_cost-Recorded r p.last_enf_op p.last_enf_at _ now (refl, refl))
        (λ x h.
          act_on_budget-OnlyScales r cooldown now x
            (cooling_after p.last_enf_op p.last_enf_at cooldown now x.1 runs h))

  -- The cooldown that the spec sets is running.
  abbrev Runs : BudgetNamespaceSpec → String → Option Time → Time → Type 0
  Runs spec op at now =
      Ensures (λ (c : Duration). CooldownRuns op at c now) (enforcement_cooldown r spec)

  warned :
      (spec : BudgetNamespaceSpec) (op : String) (at : Option Time) (now : Time)
      → Runs spec op at now
      → Ensures
          (λ (c : Duration). CooldownRuns op at c now)
          (warn r "InvalidEnforcementCooldown" (enforcement_cooldown r spec))
  unfolding warn
  warned spec op at now h =
      Ensures-on_error (λ e. record_warning r "InvalidEnforcementCooldown" (failure e))
        (enforcement_cooldown r spec) h

  enforce_budget-OnlyScales :
      (p : Progress) (now : Time)
      → Runs p.budget_namespace.spec p.last_enf_op p.last_enf_at now
      → Emits OnlyScales (enforce_budget r p now)
  unfolding enforce_budget
  enforce_budget-OnlyScales p now runs =
      Emits-bind_ensured
        (warn r "InvalidEnforcementCooldown" (enforcement_cooldown r p.budget_namespace.spec)) next
        (warn-Emits r OnlyScales _ _
          (enforcement_cooldown-Emits r OnlyScales p.budget_namespace.spec))
        (warned p.budget_namespace.spec p.last_enf_op p.last_enf_at now runs)
        (λ cooldown c. next-OnlyScales cooldown c)
    where
      next : Duration → Action S Progress
      next cooldown = do
        found ← fetch (
            r.client.get_resource_quota (record {
              namespace = p.budget_namespace.spec.namespace_name;
              name = resource_quota_name;
            }))
        rq ← checked (λ e. wrap "get ResourceQuota %q for usage check: %w" (api_error e)) found
        enforce_with_quota r p cooldown now rq

      next-OnlyScales :
          (cooldown : Duration)
          → CooldownRuns p.last_enf_op p.last_enf_at cooldown now
          → Emits OnlyScales (next cooldown)
      next-OnlyScales cooldown c = search (emits_rules, enforce_with_quota-OnlyScales) depth 8

  ensure_resources-OnlyScales :
      (spec : BudgetNamespaceSpec) → Emits OnlyScales (ensure_resources r spec)
  unfolding ensure_resources apply_namespace apply_resource_quota apply_limit_range parsed
      must_parse
  ensure_resources-OnlyScales spec = search emits_rules depth 12

  delete_checked-OnlyScales :
      (answer : Result ApiError (Unit {0})) → Emits OnlyScales (delete_checked r answer)
  unfolding delete_checked
  delete_checked-OnlyScales (ok u) = search emits_rules
  delete_checked-OnlyScales (err not_found) = search emits_rules
  delete_checked-OnlyScales (err conflict) = search emits_rules
  delete_checked-OnlyScales (err (other_error what)) = search emits_rules

  act_deleting-OnlyScales : (bn : BudgetNamespace) → Emits OnlyScales (act_deleting r bn)
  unfolding act_deleting delete_expired
  act_deleting-OnlyScales bn = search (emits_rules, delete_checked-OnlyScales) depth 8

  act_live-OnlyScales :
      (bn : BudgetNamespace) (now : Time)
      → Runs bn.spec bn.status.last_enforcement_operation bn.status.last_enforcement_at now
      → Emits OnlyScales (act_live r bn now)
  unfolding act_live enforce_live start_progress
  act_live-OnlyScales bn now runs =
      search (emits_rules, ensure_resources-OnlyScales, enforce_budget-OnlyScales) depth 8

  -- While the cooldown that the spec sets runs after the scale-down that the status records, no
  -- branch of Reconcile restores a workload: whatever the server answers, the spend is and the TTL
  -- says, each patch that is sent scales a workload to zero.
  pub no_restore_while_cooling :
      (bn : BudgetNamespace) (now : Time) (ttl : Ttl)
      → ((cooldown : Duration) (w w' : World S)
          → enforcement_cooldown r bn.spec w ≡ (ok cooldown, w')
          → CooldownRuns bn.status.last_enforcement_operation bn.status.last_enforcement_at cooldown
              now)
      → Emits OnlyScales (act r bn now ttl)
  unfolding act
  no_restore_while_cooling bn now ttl runs =
      let cooling : Runs bn.spec bn.status.last_enforcement_operation bn.status.last_enforcement_at
          now =
        record { of_value = λ w w' c e. runs c w w' e } in
      search
        (
          emits_rules,
          act_live-OnlyScales bn now cooling,
          scale_in_grace-OnlyScales r,
          act_deleting-OnlyScales,
        )
        depth 8
