-- ===== src/Examples/Spending.antt =====
-- What a cost budget does, and what the query for its spend is.
use costguard_operator.Base.{
  [], ◌∷◌, ◌≡◌, refl, ◌↔◌, inl, inr, true, false, not, none, some, pos, arith, ◌<ℤ◌, ◌+ℤ◌, ◌*◌,
}
use costguard_operator.Go.Text.{trim_space, split}
use costguard_operator.Go.Time.{add}
use costguard_operator.Go.Duration.{parse_duration, hour}
use costguard_operator.Api.{BudgetNamespace, BudgetNamespaceSpec}
use costguard_operator.Kube.Action.{query_spend}
use costguard_operator.Kube.{ok}
use costguard_operator.Controller.Cost.{
  cost_budget_enabled, validate_cost_budget_spec, cost_budget_max_usd, spend_at_or_over_max,
  within_cost_budget_for_restore, cost_budget_query_interval, resolve_namespace_spend_usd,
  query_live, with_observed, is_blank,
}
use costguard_operator.Controller.Cost.Validation.{
  IsAccepted, IsDurationOrBlank, valid_iff, unordered_maximum,
}
use costguard_operator.Controller.Cost.Opposites.{FloatLaws, opposite_tests}
use costguard_operator.Controller.Cost.Cache.{cached_after_query}
use costguard_operator.Billing.{BigQuery, row, TableRef, validate_table_ref, matches_table_part}
use costguard_operator.Examples.Cluster.{
  Dollars, dollars, not_a_number, lt_dollars, le_dollars, add_dollars, Cluster, reconciler,
  parse_dollars, status, querier, cost_budget, nan_budget, spec, budget_namespace, cluster,
  at_cluster, client,
}

-- The spend of the namespace is 70 dollars.
abbrev big_query : BigQuery Dollars Cluster
big_query = record { now = client.now; read = λ q s. (ok (row (dollars 70)), s) }

abbrev table : TableRef
table = record { project = "acme"; dataset = "billing"; table = "export" }

table_valid : validate_table_ref "acme.billing.export" ≡ ok table
unfolding validate_table_ref matches_table_part trim_space split
table_valid = refl

valid_iff_example :
    (validate_cost_budget_spec reconciler spec ≡ none) ↔ IsAccepted reconciler (some cost_budget)
valid_iff_example = valid_iff reconciler spec

spec_enabled : cost_budget_enabled spec ≡ true
unfolding cost_budget_enabled
spec_enabled = refl

spec_maximum : cost_budget_max_usd reconciler (some cost_budget) ≡ ok (dollars 100)
unfolding cost_budget_max_usd trim_space
spec_maximum = refl

below_not_le :
    (x y : Dollars)
    → le_dollars x x ≡ true
    → le_dollars y y ≡ true
    → lt_dollars x y ≡ not (le_dollars y x)
below_not_le (dollars a) (dollars b) h k = ground arith
below_not_le (dollars a) not_a_number h k = absurd (ground (arith, k))
below_not_le not_a_number y h k = absurd (ground (arith, h))

nan_first :
    (x y : Dollars) → le_dollars x x ≡ false → (lt_dollars x y ≡ false) × (le_dollars y x ≡ false)
nan_first (dollars a) y h = absurd (ground arith)
nan_first not_a_number (dollars b) h = (refl, refl)
nan_first not_a_number not_a_number h = (refl, refl)

nan_second :
    (x y : Dollars) → le_dollars y y ≡ false → (lt_dollars x y ≡ false) × (le_dollars y x ≡ false)
nan_second x (dollars b) h = absurd (ground arith)
nan_second (dollars a) not_a_number h = (refl, refl)
nan_second not_a_number not_a_number h = (refl, refl)

plus_nothing :
    (x : Dollars)
    → le_dollars (add_dollars x (dollars 0)) (add_dollars x (dollars 0)) ≡ le_dollars x x
plus_nothing (dollars a) = ground arith
plus_nothing not_a_number = refl

dollar_laws : FloatLaws reconciler.floats
dollar_laws = record {
  lt-not-le = below_not_le;
  nan_left = nan_first;
  nan_right = nan_second;
  add_epsilon = plus_nothing;
}

opposite_tests_example :
    (within_cost_budget_for_restore reconciler spec (dollars 70)
      ≡ ok (not (spend_at_or_over_max reconciler (dollars 70) (dollars 100))))
    ↔ ((le_dollars (dollars 70) (dollars 70) ≡ true)
        × (le_dollars (dollars 100) (dollars 100) ≡ true))
opposite_tests_example =
    opposite_tests reconciler dollar_laws spec (dollars 70) (dollars 100) spec_enabled spec_maximum

cost_valid : validate_cost_budget_spec reconciler spec ≡ none
unfolding validate_cost_budget_spec trim_space parse_duration
cost_valid = refl

default_interval : cost_budget_query_interval reconciler (some cost_budget) ≡ pos hour
unfolding cost_budget_query_interval trim_space
default_interval = refl

recent : pos 2000 <ℤ add (pos 1000) (cost_budget_query_interval reconciler (some cost_budget))
unfolding cost_budget_query_interval trim_space ◌+ℤ◌
recent = omega arith

seen : is_blank status.last_observed_spend_usd ≡ false
unfolding trim_space
seen = refl

seen_parsed : parse_dollars (trim_space status.last_observed_spend_usd) ≡ some (dollars 100)
unfolding trim_space
seen_parsed = refl

abbrev nan_spec : BudgetNamespaceSpec
nan_spec = record spec { cost_budget = some nan_budget }

table_set : is_blank "acme.billing.export" ≡ false
unfolding trim_space
table_set = refl

cluster_set : is_blank "dev" ≡ false
unfolding trim_space
cluster_set = refl

nan_set : is_blank "NaN" ≡ false
unfolding trim_space
nan_set = refl

a_day : IsDurationOrBlank reconciler "24h"
unfolding trim_space parse_duration
a_day = inr (pos (24 * hour), refl)

no_window : IsDurationOrBlank reconciler ""
unfolding trim_space
no_window = inl refl

nan_parsed : parse_dollars (trim_space "NaN") ≡ some not_a_number
unfolding trim_space
nan_parsed = refl

nan_not_lt : (x : Dollars) → lt_dollars x not_a_number ≡ false
nan_not_lt (dollars n) = refl
nan_not_lt not_a_number = refl

unordered_maximum_example :
    (validate_cost_budget_spec reconciler nan_spec ≡ none)
    × ((spend : Dollars) → spend_at_or_over_max reconciler spend not_a_number ≡ false)
    × ((spend : Dollars) → within_cost_budget_for_restore reconciler nan_spec spend ≡ ok false)
unordered_maximum_example =
    unordered_maximum reconciler nan_spec nan_budget not_a_number refl table_set cluster_set nan_set
      a_day no_window refl nan_parsed (λ x. refl) nan_not_lt

abbrev queried : BudgetNamespace
queried = with_observed reconciler budget_namespace (pos 2000) (dollars 100)

query_found :
    query_live reconciler querier cost_budget budget_namespace (pos 2000) (at_cluster cluster) ≡ (
      ok (dollars 100, queried),
      record { server = cluster; calls = query_spend "team-a" ∷ []; events = [] },
    )
unfolding query_live
query_found = refl

soon : pos 3000 <ℤ add (pos 2000) (cost_budget_query_interval reconciler (some cost_budget))
unfolding cost_budget_query_interval trim_space ◌+ℤ◌
soon = omega arith

cached_after_query_example :
    resolve_namespace_spend_usd reconciler queried (pos 3000) (at_cluster cluster)
    ≡ (ok (dollars 100, queried), at_cluster cluster)
cached_after_query_example =
    cached_after_query reconciler querier cost_budget budget_namespace queried (pos 2000) (pos 3000)
      (dollars 100) (at_cluster cluster)
      (record { server = cluster; calls = query_spend "team-a" ∷ []; events = [] })
      (at_cluster cluster) query_found refl refl refl cost_valid soon seen seen_parsed
