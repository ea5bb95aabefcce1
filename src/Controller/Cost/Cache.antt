-- ===== src/Controller/Cost/Cache.antt =====
-- internal/controller/cost_budget.go, resolveNamespaceSpendUSD: the use of the last query's spend.
use costguard_operator.Base.{
  ◌≡◌, refl, ap, ◌∙◌, String, Bool, true, false, not, ◌&&◌, Option, none, some, arith,
  if◌then◌else◌, ◌<ℤ◌,
}
use costguard_operator.Go.Text.{trim_space}
use costguard_operator.Go.Time.{Time, add}
use costguard_operator.Api.{BudgetNamespaceSpec, BudgetNamespaceCostBudgetSpec, BudgetNamespace}
use costguard_operator.Kube.{Error, parse_error, ok, NamespaceSpendQuerier}
use costguard_operator.Kube.Action.{World, Action, pure, or_fail, ◌>>=◌}
use costguard_operator.Kube.Action.Ensures.{Ensures, ensures_rules}
use costguard_operator.Controller.Reconciler.{Reconciler}
use costguard_operator.Controller.Cost.{
  is_blank, validate_cost_budget_spec, is_throttled, cost_budget_query_interval, query_live,
  with_observed, resolve_configured, resolve_valid, resolve_namespace_spend_usd,
}
use costguard_operator.Controller.Cost.Validation.{enabled_of}

module _ {F Q S : Type 0} (r : Reconciler F Q S) where
  configured_cached :
      (querier : NamespaceSpendQuerier F S) (cb : BudgetNamespaceCostBudgetSpec)
      (bn : BudgetNamespace) (now : Time) (spend : F) (w : World S)
      → is_throttled r (some cb) bn.status.last_cost_query_at now ≡ true
      → is_blank bn.status.last_observed_spend_usd ≡ false
      → r.floats.parse_float (trim_space bn.status.last_observed_spend_usd) ≡ some spend
      → resolve_configured r querier (some cb) bn now w ≡ (ok (spend, bn), w)
  unfolding resolve_configured
  configured_cached querier cb bn now spend w throttled seen parsed =
      let read : Option F → Action S (F × BudgetNamespace) =
        (λ o. or_fail (parse_error bn.status.last_observed_spend_usd) o >>= (λ x. pure (x, bn))) in
      ap
        (λ (b : Bool).
          (if b
              then read (r.floats.parse_float (trim_space bn.status.last_observed_spend_usd))
              else query_live r querier cb bn now)
            w)
        (both throttled seen)
      ∙ ap (λ (o : Option F). read o w) parsed
    where
      both : {b c : Bool} → b ≡ true → c ≡ false → (b && not c) ≡ true
      both p q = ground arith

  throttled_within :
      (cb : BudgetNamespaceCostBudgetSpec) (last_query now : Time)
      → now <ℤ add last_query (cost_budget_query_interval r (some cb))
      → is_throttled r (some cb) (some last_query) now ≡ true
  unfolding is_throttled
  throttled_within cb last_query now young = ground arith

  -- Where the cost budget is enabled and valid, and the last query is younger than the query
  -- interval and left a spend that parses, that spend is the answer: no query is sent, and the
  -- resource stays as it is.
  cached :
      (querier : NamespaceSpendQuerier F S) (cb : BudgetNamespaceCostBudgetSpec)
      (bn : BudgetNamespace) (now last_query : Time) (spend : F) (w : World S)
      → r.spend_querier ≡ some querier
      → bn.spec.cost_budget ≡ some cb
      → cb.enabled ≡ true
      → validate_cost_budget_spec r bn.spec ≡ none
      → bn.status.last_cost_query_at ≡ some last_query
      → now <ℤ add last_query (cost_budget_query_interval r (some cb))
      → is_blank bn.status.last_observed_spend_usd ≡ false
      → r.floats.parse_float (trim_space bn.status.last_observed_spend_usd) ≡ some spend
      → resolve_namespace_spend_usd r bn now w ≡ (ok (spend, bn), w)
  unfolding resolve_namespace_spend_usd resolve_valid
  cached querier cb bn now last_query spend w has here on valid last young seen parsed =
      ap
        (λ (b : Bool).
          (if not b
              then pure (r.floats.zero_float, bn)
              else resolve_valid r r.spend_querier (validate_cost_budget_spec r bn.spec) bn now)
            w)
        (enabled_of r bn.spec cb here on)
      ∙ ap
          (λ (q : Option (NamespaceSpendQuerier F S)).
            resolve_valid r q (validate_cost_budget_spec r bn.spec) bn now w)
          has
      ∙ ap (λ (e : Option Error). resolve_valid r (some querier) e bn now w) valid
      ∙ ap (λ (c : Option BudgetNamespaceCostBudgetSpec). resolve_configured r querier c bn now w)
          here
      ∙ configured_cached querier cb bn now spend w
          (ap (λ (o : Option Time). is_throttled r (some cb) o now) last
            ∙ throttled_within cb last_query now young)
          seen parsed

  -- What a live query leaves in the status.
  record IsObserved (bn : BudgetNamespace) (now : Time) (x : F × BudgetNamespace) : Type 0 where
    same_spec : x.1.spec ≡ bn.spec
    queried_now : x.1.status.last_cost_query_at ≡ some now
    observed : x.1.status.last_observed_spend_usd ≡ r.floats.format_float x.0

  observing :
      (bn : BudgetNamespace) (now : Time) (spend : F)
      → IsObserved bn now (spend, with_observed r bn now spend)
  observing bn now spend = record { same_spec = refl; queried_now = refl; observed = refl }

  query_live-IsObserved :
      (querier : NamespaceSpendQuerier F S) (cb : BudgetNamespaceCostBudgetSpec)
      (bn : BudgetNamespace) (now : Time)
      → Ensures (IsObserved bn now) (query_live r querier cb bn now)
  unfolding query_live
  query_live-IsObserved querier cb bn now = search (ensures_rules, observing)

  -- After a live query that succeeds, until the query interval has passed, the spend that it found
  -- is the answer again, from the status that it left and without another query. The cost budget is
  -- enabled and valid, a querier is configured, and the text of the spend is not blank and parses
  -- to the spend.
  pub cached_after_query :
      (querier : NamespaceSpendQuerier F S) (cb : BudgetNamespaceCostBudgetSpec)
      (bn bn' : BudgetNamespace) (now later : Time) (spend : F) (w w' w'' : World S)
      → query_live r querier cb bn now w ≡ (ok (spend, bn'), w')
      → r.spend_querier ≡ some querier
      → bn.spec.cost_budget ≡ some cb
      → cb.enabled ≡ true
      → validate_cost_budget_spec r bn.spec ≡ none
      → later <ℤ add now (cost_budget_query_interval r (some cb))
      → is_blank (r.floats.format_float spend) ≡ false
      → r.floats.parse_float (trim_space (r.floats.format_float spend)) ≡ some spend
      → resolve_namespace_spend_usd r bn' later w'' ≡ (ok (spend, bn'), w'')
  cached_after_query querier cb bn bn' now later spend w w' w'' found has here on valid young seen
        parsed =
      let left = (query_live-IsObserved querier cb bn now).of_value w w' (spend, bn') found in
      cached querier cb bn' later now spend w'' has
        (ap (λ (s : BudgetNamespaceSpec). s.cost_budget) left.same_spec ∙ here) on
        (ap (validate_cost_budget_spec r) left.same_spec ∙ valid) left.queried_now young
        (ap is_blank left.observed ∙ seen)
        (ap (λ (text : String). r.floats.parse_float (trim_space text)) left.observed ∙ parsed)
