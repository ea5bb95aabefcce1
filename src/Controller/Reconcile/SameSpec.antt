-- ===== src/Controller/Reconcile/SameSpec.antt =====
-- The spec of the resource along the enforcement branches of Reconcile.
use costguard_operator.Base.{String, ◌≡◌, Bool, Option, none, some, ℕ}
use costguard_operator.Go.Time.{Time, Duration}
use costguard_operator.Api.{BudgetNamespace, BudgetNamespaceSpec, BudgetNamespaceCostBudgetSpec}
use costguard_operator.Kube.{ResourceQuota, Error, NamespaceSpendQuerier, failure}
use costguard_operator.Kube.Action.{Action}
use costguard_operator.Kube.Action.Ensures.{
  Ensures, ensures_rules, Ensures-bind_ensured, Ensures-on_error,
}
use costguard_operator.Controller.Reconciler.{Reconciler, record_warning}
use costguard_operator.Controller.Cost.{
  resolve_namespace_spend_usd, resolve_valid, resolve_configured, query_live,
}
use costguard_operator.Controller.Enforce.{
  Progress, note_scaled, note_restored, scale_down, restore_or_defer, act_on_budget, recover,
  evaluate_cost, enforce_budget, scale_in_grace, evaluate_enabled, warn, note_scaled, note_restored,
  restore_or_defer, restore_now, defer_for_cost, defer_for_cooldown, act_on_budget,
  enforce_with_quota, compare_spend,
}

-- The spec of a resource never changes on the way.
abbrev pub SameSpec : BudgetNamespaceSpec → BudgetNamespace → Type 0
SameSpec spec bn = bn.spec ≡ spec

module _ {F Q S : Type 0} (r : Reconciler F Q S) (spec : BudgetNamespaceSpec) where
  query_live-SameSpec :
      (querier : NamespaceSpendQuerier F S) (cb : BudgetNamespaceCostBudgetSpec)
      (bn : BudgetNamespace) (now : Time)
      → SameSpec spec bn
      → Ensures (λ (x : F × BudgetNamespace). SameSpec spec x.1) (query_live r querier cb bn now)
  unfolding query_live
  query_live-SameSpec querier cb bn now h = search ensures_rules

  resolve_configured-SameSpec :
      (querier : NamespaceSpendQuerier F S) (cb : Option BudgetNamespaceCostBudgetSpec)
      (bn : BudgetNamespace) (now : Time)
      → SameSpec spec bn
      → Ensures
          (λ (x : F × BudgetNamespace). SameSpec spec x.1)
          (resolve_configured r querier cb bn now)
  unfolding resolve_configured
  resolve_configured-SameSpec querier none bn now h = search ensures_rules
  resolve_configured-SameSpec querier (some cb) bn now h =
      search (ensures_rules, query_live-SameSpec)

  resolve_valid-SameSpec :
      (querier : Option (NamespaceSpendQuerier F S)) (invalid : Option Error) (bn : BudgetNamespace)
      (now : Time)
      → SameSpec spec bn
      → Ensures
          (λ (x : F × BudgetNamespace). SameSpec spec x.1)
          (resolve_valid r querier invalid bn now)
  unfolding resolve_valid
  resolve_valid-SameSpec none invalid bn now h = search ensures_rules
  resolve_valid-SameSpec (some q) (some e) bn now h = search ensures_rules
  resolve_valid-SameSpec (some q) none bn now h =
      search (ensures_rules, resolve_configured-SameSpec)

  resolve-SameSpec :
      (bn : BudgetNamespace) (now : Time)
      → SameSpec spec bn
      → Ensures
          (λ (x : F × BudgetNamespace). SameSpec spec x.1)
          (resolve_namespace_spend_usd r bn now)
  unfolding resolve_namespace_spend_usd
  resolve-SameSpec bn now h = search (ensures_rules, resolve_valid-SameSpec)

  warn-Ensures :
      {A : Type 0} {R : A → Type 0} (reason : String) (m : Action S A)
      → Ensures R m
      → Ensures R (warn r reason m)
  unfolding warn
  warn-Ensures reason m h = Ensures-on_error (λ e. record_warning r reason (failure e)) m h

  compare_spend-SameSpec :
      (p : Progress) (x : F × BudgetNamespace)
      → SameSpec spec x.1
      → Ensures (λ (y : F × Progress). SameSpec spec y.1.budget_namespace) (compare_spend r p x)
  unfolding compare_spend
  compare_spend-SameSpec p x h = search ensures_rules

  evaluate_enabled-SameSpec :
      (p : Progress) (now : Time)
      → SameSpec spec p.budget_namespace
      → Ensures
          (λ (x : F × Progress). SameSpec spec x.1.budget_namespace)
          (evaluate_enabled r p now)
  unfolding evaluate_enabled
  evaluate_enabled-SameSpec p now h =
      Ensures-bind_ensured (warn r _ (resolve_namespace_spend_usd r p.budget_namespace now))
        (compare_spend r p)
        (warn-Ensures _ (resolve_namespace_spend_usd r p.budget_namespace now)
          (resolve-SameSpec p.budget_namespace now h))
        (compare_spend-SameSpec p)

  pub evaluate_cost-SameSpec :
      (p : Progress) (now : Time)
      → SameSpec spec p.budget_namespace
      → Ensures (λ (x : F × Progress). SameSpec spec x.1.budget_namespace) (evaluate_cost r p now)
  unfolding evaluate_cost
  evaluate_cost-SameSpec p now h = search (ensures_rules, evaluate_enabled-SameSpec)

  -- The other parts of the enforcement change only local variables.
  abbrev Kept : Action S Progress → Type 0
  Kept = Ensures (λ (p : Progress). SameSpec spec p.budget_namespace)

  note_scaled-SameSpec :
      (p : Progress) (n : ℕ) (announce : Action S (Unit {0}))
      → SameSpec spec p.budget_namespace
      → Kept (note_scaled r p n announce)
  unfolding note_scaled
  note_scaled-SameSpec p n announce h = search ensures_rules depth 8

  note_restored-SameSpec :
      (p : Progress) (n : ℕ) → SameSpec spec p.budget_namespace → Kept (note_restored r p n)
  unfolding note_restored
  note_restored-SameSpec p n h = search ensures_rules depth 8

  scale_down-SameSpec : (p : Progress) → SameSpec spec p.budget_namespace → Kept (scale_down r p)
  unfolding scale_down
  scale_down-SameSpec p h = search (ensures_rules, note_scaled-SameSpec)

  pub scale_in_grace-SameSpec :
      (p : Progress) → SameSpec spec p.budget_namespace → Kept (scale_in_grace r p)
  unfolding scale_in_grace
  scale_in_grace-SameSpec p h = search (ensures_rules, note_scaled-SameSpec)

  restore_or_defer-SameSpec :
      (p : Progress) (cooldown : Duration) (now : Time) (within_cost : Bool)
      → SameSpec spec p.budget_namespace
      → Kept (restore_or_defer r p cooldown now within_cost)
  unfolding restore_or_defer restore_now defer_for_cost defer_for_cooldown
  restore_or_defer-SameSpec p cooldown now within_cost h =
      search (ensures_rules, note_restored-SameSpec) depth 8

  recover-SameSpec :
      (p : Progress) (cooldown : Duration) (spend : F) (now : Time)
      → SameSpec spec p.budget_namespace
      → Kept (recover r p cooldown spend now)
  unfolding recover
  recover-SameSpec p cooldown spend now h =
      search (ensures_rules, restore_or_defer-SameSpec) depth 8

  act_on_budget-SameSpec :
      (cooldown : Duration) (now : Time) (x : F × Progress)
      → SameSpec spec x.1.budget_namespace
      → Kept (act_on_budget r cooldown now x)
  unfolding act_on_budget
  act_on_budget-SameSpec cooldown now (spend, p) h =
      search (ensures_rules, scale_down-SameSpec, recover-SameSpec) depth 8

  enforce_with_quota-SameSpec :
      (p : Progress) (cooldown : Duration) (now : Time) (rq : ResourceQuota Q)
      → SameSpec spec p.budget_namespace
      → Kept (enforce_with_quota r p cooldown now rq)
  unfolding enforce_with_quota
  enforce_with_quota-SameSpec p cooldown now rq h =
      Ensures-bind_ensured (evaluate_cost r _ now) (act_on_budget r cooldown now)
        (evaluate_cost-SameSpec _ now h) (λ x k. act_on_budget-SameSpec cooldown now x k)

  pub enforce_budget-SameSpec :
      (p : Progress) (now : Time) → SameSpec spec p.budget_namespace → Kept (enforce_budget r p now)
  unfolding enforce_budget
  enforce_budget-SameSpec p now h = search (ensures_rules, enforce_with_quota-SameSpec) depth 8
