-- ===== src/Controller/Reconcile/SpendRequests.antt =====
-- The requests of the evaluation of the spend.
use costguard_operator.Base.{◌≡◌, sym, ap, ◌∙◌, Bool, true, false, not, Option, none, some, arith}
use costguard_operator.Go.Time.{Time}
use costguard_operator.Api.{BudgetNamespace, BudgetNamespaceSpec, BudgetNamespaceCostBudgetSpec}
use costguard_operator.Kube.{Error, NamespaceSpendQuerier}
use costguard_operator.Kube.Action.{Call, query_spend}
use costguard_operator.Kube.Action.Emits.{Emits, emits_rules, Emits-bind, Emits-pure, Emits-if}
use costguard_operator.Controller.Reconciler.{Reconciler}
use costguard_operator.Controller.Cost.{
  cost_budget_enabled, resolve_namespace_spend_usd, resolve_valid, resolve_configured, query_live,
}
use costguard_operator.Controller.Quota.{should_scale_deployments_to_zero}
use costguard_operator.Controller.Enforce.{Progress, evaluate_cost, evaluate_enabled, compare_spend}
use costguard_operator.Controller.Reconcile.Permitted.{PermitsAct}
use costguard_operator.Controller.Reconcile.Emissions.{warn-Emits}
use costguard_operator.Controller.Reconcile.SameSpec.{SameSpec}

module _ {F Q S : Type 0} (r : Reconciler F Q S) (spec : BudgetNamespaceSpec)
    (expired deleting : Bool) where
  abbrev Permitted : Call → Type 0
  Permitted = PermitsAct spec expired deleting

  of_not : {b : Bool} → not b ≡ false → b ≡ true
  of_not h = ground arith

  resolve_configured-Emits :
      (querier : NamespaceSpendQuerier F S) (cb : Option BudgetNamespaceCostBudgetSpec)
      (bn : BudgetNamespace) (now : Time)
      → Permitted (query_spend bn.spec.namespace_name)
      → Emits Permitted (resolve_configured r querier cb bn now)
  unfolding resolve_configured query_live
  resolve_configured-Emits querier none bn now h = search emits_rules
  resolve_configured-Emits querier (some cb) bn now h = search emits_rules depth 8

  resolve_valid-Emits :
      (querier : Option (NamespaceSpendQuerier F S)) (invalid : Option Error) (bn : BudgetNamespace)
      (now : Time)
      → Permitted (query_spend bn.spec.namespace_name)
      → Emits Permitted (resolve_valid r querier invalid bn now)
  unfolding resolve_valid
  resolve_valid-Emits none invalid bn now h = search emits_rules
  resolve_valid-Emits (some q) (some e) bn now h = search emits_rules
  resolve_valid-Emits (some q) none bn now h =
      resolve_configured-Emits q bn.spec.cost_budget bn now h

  resolve-Emits :
      (bn : BudgetNamespace) (now : Time)
      → Permitted (query_spend bn.spec.namespace_name)
      → Emits Permitted (resolve_namespace_spend_usd r bn now)
  unfolding resolve_namespace_spend_usd
  resolve-Emits bn now h = search (emits_rules, resolve_valid-Emits)

  compare_spend-Emits :
      (p : Progress) (x : F × BudgetNamespace) → Emits Permitted (compare_spend r p x)
  unfolding compare_spend
  compare_spend-Emits p x = search emits_rules

  evaluate_enabled-Emits :
      (p : Progress) (now : Time)
      → Permitted (query_spend p.budget_namespace.spec.namespace_name)
      → Emits Permitted (evaluate_enabled r p now)
  unfolding evaluate_enabled
  evaluate_enabled-Emits p now h =
      Emits-bind _ (compare_spend r p)
        (warn-Emits r Permitted _ _ (resolve-Emits p.budget_namespace now h))
        (compare_spend-Emits p)

  pub evaluate_cost-Emits :
      (p : Progress) (now : Time)
      → SameSpec spec p.budget_namespace
      → should_scale_deployments_to_zero spec ≡ true
      → expired ≡ false
      → Emits Permitted (evaluate_cost r p now)
  unfolding evaluate_cost
  evaluate_cost-Emits p now same on live =
      Emits-if _ _ _ (λ _. Emits-pure _)
        (λ enabled. evaluate_enabled-Emits p now (
          ap (λ (s : BudgetNamespaceSpec). s.namespace_name) same,
          live,
          on,
          ap cost_budget_enabled (sym same) ∙ of_not enabled,
        ))
