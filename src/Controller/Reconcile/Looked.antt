-- ===== src/Controller/Reconcile/Looked.antt =====
-- The enforcement of a live BudgetNamespace looks at its quota and at its spend.
use costguard_operator.Base.{
  String, ◌≡◌, refl, sym, ap, ◌∙◌, subst, ◌⊎◌, inl, inr, Bool, true, false, not, arith,
}
use costguard_operator.Go.Time.{Time, Duration}
use costguard_operator.Api.{BudgetNamespace}
use costguard_operator.Kube.{
  ResourceQuota, Error, failure, ApiError, Result, ok, err, wrap, api_error, NamespacedName,
}
use costguard_operator.Kube.Action.{Action, World, pure, fetch, checked, ◌>>=◌}
use costguard_operator.Kube.Action.Ensures.{
  Ensures, Ensures-pure, Ensures-fail, Ensures-if, Ensures-bind, Ensures-on_error,
  Ensures-bind_ensured,
}
use costguard_operator.Controller.Reconciler.{Reconciler, record_warning, resource_quota_name}
use costguard_operator.Controller.Restore.{enforcement_cooldown}
use costguard_operator.Controller.Quota.{quota_used_at_or_over_hard}
use costguard_operator.Controller.Cost.{
  cost_budget_enabled, cost_budget_max_usd, resolve_namespace_spend_usd, spend_at_or_over_max,
}
use costguard_operator.Controller.Enforce.{
  Progress, act_on_budget, evaluate_cost, enforce_budget, evaluate_enabled, enforce_with_quota,
  compare_spend, warn,
}
use costguard_operator.Controller.Reconcile.Flagged.{act_on_budget-Flagged}

-- What an action gives, it gives in some run of it.
abbrev pub Answers : {S A : Type 0} → Action S A → A → Type 0
Answers {S} m a = (w w' : World S) × (m w ≡ (ok a, w'))

Answers-Ensures : {S A : Type 0} (m : Action S A) → Ensures (Answers m) m
Answers-Ensures m = record { of_value = λ w w' a e. (w, w', e) }

checked-Ensures :
    {S E A : Type 0} (f : E → Error) (q : Result E A)
    → Ensures {S = S} (λ a. q ≡ ok a) (checked f q)
checked-Ensures f (ok a) = Ensures-pure a refl
checked-Ensures f (err e) = Ensures-fail (f e)

abbrev value_or : {S A : Type 0} → A → Result Error A × World S → A
value_or d (ok a, w) = a
value_or d (err e, w) = d

fetch-Ensures :
    {S E A : Type 0} (operation : S → Result E A × S)
    → Ensures (λ found. (asked : S) × ((operation asked).0 ≡ found)) (fetch operation)
fetch-Ensures operation = record {
  of_value = λ w w' found e. (w.server, ap (value_or (operation w.server).0) e);
}

module _ {F Q S : Type 0} (r : Reconciler F Q S) where
  -- Whether the spend is over the budget. It is not where no budget is enabled; otherwise a spend
  -- was found, and the question is whether the maximum is at or below it with the small constant.
  abbrev pub CostFound : BudgetNamespace → Bool → Type 0
  CostFound bn over =
      ((cost_budget_enabled bn.spec ≡ false) × (over ≡ false))
      ⊎ ((cost_budget_enabled bn.spec ≡ true)
          × (now : Time) × (spend m : F) × (queried : BudgetNamespace) × Answers
              (resolve_namespace_spend_usd r bn now) (spend, queried)
          × (cost_budget_max_usd r bn.spec.cost_budget ≡ ok m)
          × (over ≡ r.floats.le_float m (r.floats.add_float spend r.floats.epsilon)))

  -- The quota is one that the server answered with.
  abbrev pub QuotaFound : BudgetNamespace → Bool → Type 0
  QuotaFound bn at_limit =
      (quota : ResourceQuota Q) × (asked : S) × ((r.client.get_resource_quota
          (record { namespace = bn.spec.namespace_name; name = resource_quota_name }) asked).0
        ≡ ok quota)
      × (at_limit ≡ quota_used_at_or_over_hard r.quantities quota)

  -- What the local variables say was found.
  pub record Found (bn : BudgetNamespace) (p : Progress) : Type 0 where
    pub looked : p.quota_evaluated ≡ true
    pub quota : QuotaFound bn p.quota_at_hard_limit
    pub cost : CostFound bn p.cost_over_budget

  warn-Ensures :
      {A : Type 0} {R : A → Type 0} (reason : String) (m : Action S A)
      → Ensures R m
      → Ensures R (warn r reason m)
  unfolding warn
  warn-Ensures reason m h = Ensures-on_error (λ e. record_warning r reason (failure e)) m h

  -- The same, once the spend is known.
  abbrev CostKnown : BudgetNamespace → Bool → F × Progress → Type 0
  CostKnown bn at_limit x =
      (x.1.quota_evaluated ≡ true)
      × (x.1.quota_at_hard_limit ≡ at_limit)
      × CostFound bn x.1.cost_over_budget

  compare_spend-CostKnown :
      (p : Progress) (now : Time) (x : F × BudgetNamespace)
      → p.quota_evaluated ≡ true
      → cost_budget_enabled p.budget_namespace.spec ≡ true
      → Answers (resolve_namespace_spend_usd r p.budget_namespace now) x
      → Ensures (CostKnown p.budget_namespace p.quota_at_hard_limit) (compare_spend r p x)
  unfolding compare_spend spend_at_or_over_max
  compare_spend-CostKnown p now (spend, bn) looked on answered =
      Ensures-bind_ensured
        (checked (λ e. e) (cost_budget_max_usd r p.budget_namespace.spec.cost_budget))
        (λ m. pure (compared m))
        (checked-Ensures (λ e. e) (cost_budget_max_usd r p.budget_namespace.spec.cost_budget))
        (λ m known.
          Ensures-pure (compared m)
            (looked, refl, inr (on, now, spend, m, bn, answered, known, refl)))
    where
      compared : F → F × Progress
      compared m = (
        spend,
        record p {
          budget_namespace = bn;
          cost_budget_evaluated = true;
          cost_over_budget = r.floats.le_float m (r.floats.add_float spend r.floats.epsilon);
        },
      )

  evaluate_cost-CostKnown :
      (p : Progress) (now : Time)
      → p.quota_evaluated ≡ true
      → p.cost_over_budget ≡ false
      → Ensures (CostKnown p.budget_namespace p.quota_at_hard_limit) (evaluate_cost r p now)
  unfolding evaluate_cost evaluate_enabled
  evaluate_cost-CostKnown p now looked fresh =
      Ensures-if (not (cost_budget_enabled p.budget_namespace.spec)) _ _
        (λ off. Ensures-pure _ (looked, refl, inl (is_off off, fresh)))
        (λ on.
          Ensures-bind_ensured
            (warn r "CostBudgetQueryFailed" (resolve_namespace_spend_usd r p.budget_namespace now))
            (compare_spend r p)
            (warn-Ensures "CostBudgetQueryFailed"
              (resolve_namespace_spend_usd r p.budget_namespace now)
              (Answers-Ensures (resolve_namespace_spend_usd r p.budget_namespace now)))
            (λ x answered. compare_spend-CostKnown p now x looked (is_on on) answered))
    where
      is_off : {b : Bool} → not b ≡ true → b ≡ false
      is_off h = ground arith

      is_on : {b : Bool} → not b ≡ false → b ≡ true
      is_on h = ground arith

  enforce_with_quota-Found :
      (p : Progress) (cooldown : Duration) (now : Time) (rq : ResourceQuota Q) (asked : S)
      → p.cost_over_budget ≡ false
      → (r.client.get_resource_quota
          (record {
            namespace = p.budget_namespace.spec.namespace_name;
            name = resource_quota_name;
          })
          asked).0
        ≡ ok rq
      → Ensures (Found p.budget_namespace) (enforce_with_quota r p cooldown now rq)
  unfolding enforce_with_quota
  enforce_with_quota-Found p cooldown now rq asked fresh answered =
      Ensures-bind_ensured (evaluate_cost r _ now) (act_on_budget r cooldown now)
        (evaluate_cost-CostKnown _ now refl fresh)
        (λ x (looked, at_limit, cost). record {
          of_value = λ w w' q e.
              let (still, quota, over) =
                (act_on_budget-Flagged r x.1.quota_at_hard_limit x.1.cost_over_budget cooldown now x
                    (looked, refl, refl)).of_value
                  w w' q e in
              record {
                looked = still;
                quota = (rq, asked, answered, quota ∙ at_limit);
                cost = subst (CostFound p.budget_namespace) (sym over) cost;
              };
        })

  pub enforce_budget-Found :
      (p : Progress) (now : Time)
      → p.cost_over_budget ≡ false
      → Ensures (Found p.budget_namespace) (enforce_budget r p now)
  unfolding enforce_budget
  enforce_budget-Found p now fresh =
      Ensures-bind
        (warn r "InvalidEnforcementCooldown" (enforcement_cooldown r p.budget_namespace.spec)) next
        (λ cooldown.
          Ensures-bind_ensured get_quota
            (λ found. read_quota found >>= enforce_with_quota r p cooldown now)
            (fetch-Ensures (r.client.get_resource_quota quota_name))
            (λ found (asked, answered).
              Ensures-bind_ensured (read_quota found) (enforce_with_quota r p cooldown now)
                (checked-Ensures
                  (λ e. wrap "get ResourceQuota %q for usage check: %w" (api_error e)) found)
                (λ rq is. enforce_with_quota-Found p cooldown now rq asked fresh (answered ∙ is))))
    where
      quota_name : NamespacedName
      quota_name = record {
        namespace = p.budget_namespace.spec.namespace_name;
        name = resource_quota_name;
      }

      get_quota : Action S (Result ApiError (ResourceQuota Q))
      get_quota = fetch (r.client.get_resource_quota quota_name)

      read_quota : Result ApiError (ResourceQuota Q) → Action S (ResourceQuota Q)
      read_quota = checked (λ e. wrap "get ResourceQuota %q for usage check: %w" (api_error e))

      next : Duration → Action S Progress
      next cooldown =
          get_quota >>= λ found. read_quota found >>= enforce_with_quota r p cooldown now
