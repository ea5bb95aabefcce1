-- ===== src/Controller/Reconcile/OnlyScaling.antt =====
-- The parts of the enforcement that patch workloads only to scale them to zero.
use costguard_operator.Base.{◌≡◌, String, if◌then◌else◌, Option, none, some}
use costguard_operator.Go.Time.{Time, Duration}
use costguard_operator.Api.{BudgetNamespace, BudgetNamespaceCostBudgetSpec}
use costguard_operator.Kube.{Error, NamespaceSpendQuerier}
use costguard_operator.Kube.Action.{Call, patch, query_spend, Action, pure}
use costguard_operator.Kube.Action.Emits.{
  Emits, emits_rules, Emits-bind, Emits-pure, Emits-if, Emits-map,
}
use costguard_operator.Kube.Action.Ensures.{Ensures, ensures_rules}
use costguard_operator.Controller.Reconciler.{Reconciler}
use costguard_operator.Controller.Scale.{scaled_to_zero}
use costguard_operator.Controller.Restore.{restore_on_recovery_enabled}
use costguard_operator.Controller.Restore.Cooldown.{CooldownRuns}
use costguard_operator.Controller.Cost.{
  resolve_namespace_spend_usd, resolve_valid, resolve_configured, query_live,
}
use costguard_operator.Controller.Enforce.{
  Progress, at_budget_risk, scale_down, act_on_budget, evaluate_cost, scale_in_grace,
  evaluate_enabled, compare_spend, recover,
}
use costguard_operator.Controller.Enforce.Cooldown.{no_restore_in_cooldown}
use costguard_operator.Controller.Reconcile.Emissions.{
  base_rules, scale_workloads_to_zero-Emits, note_scaled-Emits, record_normal-Emits, warn-Emits,
}

-- A request that patches a workload scales it to zero.
abbrev pub OnlyScales : Call → Type 0
OnlyScales (patch kind namespace w w') = scaled_to_zero w ≡ some w'
OnlyScales _ = Unit

module _ {F Q S : Type 0} (r : Reconciler F Q S) where
  -- The last enforcement recorded stays as it was read.
  abbrev pub Recorded : String → Option Time → Progress → Type 0
  Recorded op at p = (p.last_enf_op ≡ op) × (p.last_enf_at ≡ at)

  module _ (op : String) (at : Option Time) where
    compare_spend-Recorded :
        (p : Progress) (x : F × BudgetNamespace)
        → Recorded op at p
        → Ensures (λ (y : F × Progress). Recorded op at y.1) (compare_spend r p x)
    unfolding compare_spend
    compare_spend-Recorded p x h = search ensures_rules

    pub evaluate_cost-Recorded :
        (p : Progress) (now : Time)
        → Recorded op at p
        → Ensures (λ (y : F × Progress). Recorded op at y.1) (evaluate_cost r p now)
    unfolding evaluate_cost evaluate_enabled
    evaluate_cost-Recorded p now h = search (ensures_rules, compare_spend-Recorded)

  scale_down-OnlyScales : (p : Progress) → Emits OnlyScales (scale_down r p)
  unfolding scale_down
  scale_down-OnlyScales p =
      Emits-bind _ _
        (warn-Emits r OnlyScales _ _ (
          scale_workloads_to_zero-Emits r OnlyScales p.budget_namespace.spec.namespace_name
            (λ kind w w' e. e)))
        (λ n. note_scaled-Emits r OnlyScales p n _ (record_normal-Emits r OnlyScales _ _))

  pub scale_in_grace-OnlyScales : (p : Progress) → Emits OnlyScales (scale_in_grace r p)
  unfolding scale_in_grace
  scale_in_grace-OnlyScales p =
      Emits-bind _ _
        (warn-Emits r OnlyScales _ _ (
          scale_workloads_to_zero-Emits r OnlyScales p.budget_namespace.spec.namespace_name
            (λ kind w w' e. e)))
        (λ n. note_scaled-Emits r OnlyScales p n _ (record_normal-Emits r OnlyScales _ _))

  recover-OnlyScales :
      (p : Progress) (cooldown : Duration) (spend : F) (now : Time)
      → CooldownRuns p.last_enf_op p.last_enf_at cooldown now
      → Emits OnlyScales (recover r p cooldown spend now)
  recover-OnlyScales p cooldown spend now runs =
      Emits-map OnlyScales (recover r p cooldown spend now) (λ call h. absurd h)
        (no_restore_in_cooldown r p cooldown spend now runs)

  pub act_on_budget-OnlyScales :
      (cooldown : Duration) (now : Time) (x : F × Progress)
      → CooldownRuns x.1.last_enf_op x.1.last_enf_at cooldown now
      → Emits OnlyScales (act_on_budget r cooldown now x)
  unfolding act_on_budget
  act_on_budget-OnlyScales cooldown now (spend, p) runs =
      let restores = restore_on_recovery_enabled p.budget_namespace.spec in
      let recovery : Action S Progress =
        (if restores then recover r p cooldown spend now else pure p) in
      Emits-if (at_budget_risk p) (scale_down r p) recovery (λ _. scale_down-OnlyScales p)
        (λ _.
          Emits-if restores (recover r p cooldown spend now) (pure p)
            (λ _. recover-OnlyScales p cooldown spend now runs) (λ _. Emits-pure p))

  -- What the evaluation of the spend may send, besides reading: the query.
  module _ (P : Call → Type 0) (queries : (namespace : String) → P (query_spend namespace)) where
    resolve_configured-Emits :
        (querier : NamespaceSpendQuerier F S) (cb : Option BudgetNamespaceCostBudgetSpec)
        (bn : BudgetNamespace) (now : Time)
        → Emits P (resolve_configured r querier cb bn now)
    unfolding resolve_configured query_live
    resolve_configured-Emits querier none bn now = search emits_rules
    resolve_configured-Emits querier (some cb) bn now = search (emits_rules, queries) depth 8

    resolve_valid-Emits :
        (querier : Option (NamespaceSpendQuerier F S)) (invalid : Option Error)
        (bn : BudgetNamespace) (now : Time)
        → Emits P (resolve_valid r querier invalid bn now)
    unfolding resolve_valid
    resolve_valid-Emits none invalid bn now = search emits_rules
    resolve_valid-Emits (some q) (some e) bn now = search emits_rules
    resolve_valid-Emits (some q) none bn now = resolve_configured-Emits q bn.spec.cost_budget bn now

    pub evaluate_cost-Emits : (p : Progress) (now : Time) → Emits P (evaluate_cost r p now)
    unfolding evaluate_cost evaluate_enabled resolve_namespace_spend_usd compare_spend
    evaluate_cost-Emits p now = search (base_rules, resolve_valid-Emits) depth 8

  pub evaluate_cost-OnlyScales :
      (p : Progress) (now : Time) → Emits OnlyScales (evaluate_cost r p now)
  evaluate_cost-OnlyScales = evaluate_cost-Emits OnlyScales (λ namespace. tt)
