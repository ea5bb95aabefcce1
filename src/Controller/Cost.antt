-- ===== src/Controller/Cost.antt =====
-- internal/controller/cost_budget.go: the cost budget's settings, their validation, the throttled
-- spend query and the comparison with the maximum.
pub mod Validation
pub mod Opposites
pub mod Cache
use costguard_operator.Base.{
  ℕ, ◌*◌, String, Bool, true, false, not, ◌&&◌, Option, none, some, ◌==◌, if◌then◌else◌, pos,
}
use costguard_operator.Go.Text.{trim_space}
use costguard_operator.Go.Duration.{hour, parse_duration}
use costguard_operator.Go.Time.{Time, Duration, add, before}
use costguard_operator.Api.{
  BudgetNamespaceSpec, BudgetNamespaceCostBudgetSpec, BudgetNamespace, Message, text,
}
use costguard_operator.Kube.{
  Error, errorf, wrap, parse_error, panicked, Result, ok, err, NamespaceSpendQuerier,
}
use costguard_operator.Kube.Action.{Action, pure, fail, or_fail, checked, ◌>>=◌, send, query_spend}
use costguard_operator.Controller.Reconciler.{Reconciler}

-- 168 h
abbrev pub default_cost_budget_lookback : Duration
default_cost_budget_lookback = pos (168 * hour)

-- 1 h
abbrev pub default_cost_budget_query_interval : Duration
default_cost_budget_query_interval = pos hour

abbrev pub is_enabled : Option BudgetNamespaceCostBudgetSpec → Bool
is_enabled none = false
is_enabled (some cb) = cb.enabled

unfoldable pub cost_budget_enabled : BudgetNamespaceSpec → Bool
cost_budget_enabled spec = is_enabled spec.cost_budget

abbrev pub is_blank : String → Bool
is_blank s = trim_space s == ""

module _ {F Q S : Type 0} (r : Reconciler F Q S) where
  -- A duration that is written must parse.
  unfoldable pub window_error : String → String → Option Error → Option Error
  window_error context window rest =
      if is_blank window
      then rest
      else elim (parse_duration r.floats.fraction_of (trim_space window)) [
        | none ↦ some (wrap context (parse_error window))
        | some d ↦ rest
      ]

  unfoldable pub maximum_error : BudgetNamespaceCostBudgetSpec → Option F → Option Error
  unfolding window_error
  maximum_error cb none =
      some (wrap "parse spec.costBudget.maxSpendUSD: %w" (parse_error cb.max_spend_usd))
  maximum_error cb (some max_usd) =
      if r.floats.le_float max_usd r.floats.zero_float
      then some (errorf "spec.costBudget.maxSpendUSD must be greater than zero")
      else window_error "parse spec.costBudget.lookbackWindow: %w" cb.lookback_window
          (window_error "parse spec.costBudget.queryInterval: %w" cb.query_interval none)

  unfoldable pub validate_enabled : BudgetNamespaceCostBudgetSpec → Option Error
  unfolding maximum_error
  validate_enabled cb =
      if is_blank cb.billing_export_table
      then some
          (errorf "spec.costBudget.billingExportTable is required when cost budget is enabled")
      else if is_blank cb.cluster_name
      then some (errorf "spec.costBudget.clusterName is required when cost budget is enabled")
      else if is_blank cb.max_spend_usd
      then some (errorf "spec.costBudget.maxSpendUSD is required when cost budget is enabled")
      else maximum_error cb (r.floats.parse_float (trim_space cb.max_spend_usd))

  unfoldable pub validate_cost_budget : Option BudgetNamespaceCostBudgetSpec → Option Error
  unfolding validate_enabled
  validate_cost_budget none = none
  validate_cost_budget (some cb) = if not cb.enabled then none else validate_enabled cb

  -- validateCostBudgetSpec; `none` is nil
  unfoldable pub validate_cost_budget_spec : BudgetNamespaceSpec → Option Error
  unfolding validate_cost_budget
  validate_cost_budget_spec spec = validate_cost_budget spec.cost_budget

  window_or : Duration → String → Duration
  window_or default_window window =
      if is_blank window
      then default_window
      else elim (parse_duration r.floats.fraction_of (trim_space window)) [
        | none ↦ default_window
        | some d ↦ d
      ]

  unfoldable pub cost_budget_lookback : Option BudgetNamespaceCostBudgetSpec → Duration
  unfolding window_or
  cost_budget_lookback none = default_cost_budget_lookback
  cost_budget_lookback (some cb) = window_or default_cost_budget_lookback cb.lookback_window

  unfoldable pub cost_budget_query_interval : Option BudgetNamespaceCostBudgetSpec → Duration
  unfolding window_or
  cost_budget_query_interval none = default_cost_budget_query_interval
  cost_budget_query_interval (some cb) =
      window_or default_cost_budget_query_interval cb.query_interval

  -- costBudgetMaxUSD
  unfoldable pub cost_budget_max_usd : Option BudgetNamespaceCostBudgetSpec → Result Error F
  cost_budget_max_usd none = err (errorf "cost budget spec is nil")
  cost_budget_max_usd (some cb) = elim (r.floats.parse_float (trim_space cb.max_spend_usd)) [
    | none ↦ err (parse_error cb.max_spend_usd)
    | some max_usd ↦ ok max_usd
  ]

  -- spend + 1e-9 >= max
  unfoldable pub spend_at_or_over_max : F → F → Bool
  spend_at_or_over_max spend max_usd =
      r.floats.le_float max_usd (r.floats.add_float spend r.floats.epsilon)

  -- The last query is younger than the query interval.
  unfoldable pub is_throttled : Option BudgetNamespaceCostBudgetSpec → Option Time → Time → Bool
  is_throttled cb none now = false
  is_throttled cb (some last_query) now =
      before now (add last_query (cost_budget_query_interval cb))

  -- The status fields that a query sets.
  abbrev pub with_observed : BudgetNamespace → Time → F → BudgetNamespace
  with_observed bn now spend = record bn {
    status = record bn.status {
      last_cost_query_at = some now;
      last_observed_spend_usd = r.floats.format_float spend;
    };
  }

  -- The query, with the status fields that it sets.
  unfoldable pub query_live :
      NamespaceSpendQuerier F S
      → BudgetNamespaceCostBudgetSpec
      → BudgetNamespace
      → Time
      → Action S (F × BudgetNamespace)
  query_live querier cb bn now = do
    answer ← send (query_spend bn.spec.namespace_name) (
        querier.namespace_spend_usd cb.billing_export_table cb.cluster_name bn.spec.namespace_name
          cb.billing_location (cost_budget_lookback (some cb)))
    spend ← checked (λ e. e) answer
    pure (spend, with_observed bn now spend)

  unfoldable pub resolve_configured :
      NamespaceSpendQuerier F S
      → Option BudgetNamespaceCostBudgetSpec
      → BudgetNamespace
      → Time
      → Action S (F × BudgetNamespace)
  resolve_configured querier none bn now = fail panicked
  resolve_configured querier (some cb) bn now =
      if is_throttled (some cb) bn.status.last_cost_query_at now
        && not (is_blank bn.status.last_observed_spend_usd)
      then or_fail (parse_error bn.status.last_observed_spend_usd)
          (r.floats.parse_float (trim_space bn.status.last_observed_spend_usd))
        >>= (λ spend. pure (spend, bn))
      else query_live querier cb bn now

  unfoldable pub resolve_valid :
      Option (NamespaceSpendQuerier F S)
      → Option Error
      → BudgetNamespace
      → Time
      → Action S (F × BudgetNamespace)
  resolve_valid none invalid bn now =
      fail (errorf "cost budget is enabled but BigQuery client is not configured on the operator")
  resolve_valid (some querier) (some e) bn now = fail e
  resolve_valid (some querier) none bn now = resolve_configured querier bn.spec.cost_budget bn now

  -- resolveNamespaceSpendUSD, which returns the resource with the status that it updated
  unfoldable pub resolve_namespace_spend_usd :
      BudgetNamespace → Time → Action S (F × BudgetNamespace)
  resolve_namespace_spend_usd bn now =
      if not (cost_budget_enabled bn.spec)
      then pure (r.floats.zero_float, bn)
      else resolve_valid r.spend_querier (validate_cost_budget_spec bn.spec) bn now

  unfoldable pub within_maximum : F → Result Error F → Result Error Bool
  within_maximum spend (err e) = err e
  within_maximum spend (ok max_usd) =
      ok (r.floats.lt_float (r.floats.add_float spend r.floats.epsilon) max_usd)

  unfoldable pub within_cost_budget_for_restore : BudgetNamespaceSpec → F → Result Error Bool
  unfolding within_maximum
  within_cost_budget_for_restore spec spend =
      if not (cost_budget_enabled spec)
      then ok true
      else within_maximum spend (cost_budget_max_usd spec.cost_budget)

unfoldable pub enforcement_scale_reason : Bool → Bool → String
enforcement_scale_reason quota_at_hard_limit cost_over_budget =
    if quota_at_hard_limit && cost_over_budget
    then "resource-quota-and-cost-budget"
    else if cost_over_budget
    then "cost-budget"
    else "resource-quota"

unfoldable pub over_budget_reason_message : Bool → Bool → String × Message
over_budget_reason_message quota_at_hard_limit cost_over_budget =
    if quota_at_hard_limit && cost_over_budget
    then (
      "CostBudgetAndQuotaExceeded",
      text
          "ResourceQuota is at or above a hard limit and billed spend is at or above maxSpendUSD; non-exempt Deployments and StatefulSets were scaled to zero",
    )
    else if cost_over_budget
    then (
      "CostBudgetExceeded",
      text
          "Billed spend in the lookback window is at or above maxSpendUSD; non-exempt Deployments and StatefulSets were scaled to zero",
    )
    else (
      "ResourceQuotaAtOrOverHard",
      text
          "ResourceQuota usage is at or above a hard limit; non-exempt Deployments and StatefulSets were scaled to zero",
    )
