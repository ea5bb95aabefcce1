-- ===== src/Controller/Cost/Validation.antt =====
-- Which cost budgets the validation accepts, and what the enforcement makes of them.
use costguard_operator.Base.{
  ◌≡◌, refl, sym, subst, ap, ◌∙◌, ◌↔◌, ◌⊎◌, inl, inr, String, Bool, true, false, not, Option, none,
  some, arith, if◌then◌else◌, Bool-cases, Option-cases,
}
use costguard_operator.Go.Text.{trim_space}
use costguard_operator.Go.Duration.{parse_duration}
use costguard_operator.Go.Time.{Duration}
use costguard_operator.Api.{BudgetNamespaceSpec, BudgetNamespaceCostBudgetSpec}
use costguard_operator.Kube.{Error, Result, ok}
use costguard_operator.Controller.Reconciler.{Reconciler}
use costguard_operator.Controller.Cost.{
  is_blank, is_enabled, cost_budget_enabled, window_error, maximum_error, validate_enabled,
  validate_cost_budget, validate_cost_budget_spec, cost_budget_max_usd, spend_at_or_over_max,
  within_maximum, within_cost_budget_for_restore,
}

above_zero :
    {A : Type 0} (b : Bool) (x : A) (o : Option A)
    → (if b then some x else o) ≡ none
    → (b ≡ false) × (o ≡ none)
above_zero true x o e = absurd (ground arith)
above_zero false x o e = (refl, e)

unless_off :
    {A : Type 0} (b : Bool) (o : Option A) (C : Type 0)
    → ((o ≡ none) ↔ C)
    → ((if not b then none else o) ≡ none) ↔ ((b ≡ false) ⊎ C)
unless_off false o C h = (λ _. inl refl, λ _. refl)
unless_off true o C h =
    (λ e. inr (h.0 e), λ x. elim x [ inl off ↦ absurd (ground arith) | inr c ↦ h.1 c ])

module _ {F Q S : Type 0} (r : Reconciler F Q S) where
  -- A window that is left out or is a Go duration.
  abbrev pub IsDurationOrBlank : String → Type 0
  IsDurationOrBlank window =
      (is_blank window ≡ true)
      ⊎ ((d : Duration) × (parse_duration r.floats.fraction_of (trim_space window) ≡ some d))

  pub record IsComplete (cb : BudgetNamespaceCostBudgetSpec) : Type 0 where
    pub table_set : is_blank cb.billing_export_table ≡ false
    pub cluster_set : is_blank cb.cluster_name ≡ false
    pub maximum_set : is_blank cb.max_spend_usd ≡ false
    pub maximum : F
    pub maximum_parsed : r.floats.parse_float (trim_space cb.max_spend_usd) ≡ some maximum
    pub maximum_positive : r.floats.le_float maximum r.floats.zero_float ≡ false
    pub lookback_window : IsDurationOrBlank cb.lookback_window
    pub query_interval : IsDurationOrBlank cb.query_interval

  abbrev pub IsAccepted : Option BudgetNamespaceCostBudgetSpec → Type 0
  IsAccepted none = Unit
  IsAccepted (some cb) = (cb.enabled ≡ false) ⊎ IsComplete cb

  window_ok :
      (context window : String) (rest : Option Error)
      → window_error r context window rest ≡ none
      → IsDurationOrBlank window × (rest ≡ none)
  unfolding window_error
  window_ok context window rest e = elim (Bool-cases (is_blank window)) [
    | inl blank ↦ (inl blank, ground arith)
    | inr set ↦ elim (Option-cases (parse_duration r.floats.fraction_of (trim_space window))) [
      | inl missing ↦ absurd (ground arith)
      | inr (d, found) ↦ (inr (d, found), ground arith)
    ]
  ]

  window_none :
      (context window : String) (rest : Option Error)
      → IsDurationOrBlank window
      → rest ≡ none
      → window_error r context window rest ≡ none
  unfolding window_error
  window_none context window rest (inl blank) e = ground arith
  window_none context window rest (inr (d, found)) e = ground arith

  parsed_maximum : BudgetNamespaceCostBudgetSpec → Option F
  parsed_maximum cb = r.floats.parse_float (trim_space cb.max_spend_usd)

  fields_set :
      (cb : BudgetNamespaceCostBudgetSpec)
      → validate_enabled r cb ≡ none
      → (is_blank cb.billing_export_table ≡ false)
        × (is_blank cb.cluster_name ≡ false)
        × (is_blank cb.max_spend_usd ≡ false)
        × (maximum_error r cb (parsed_maximum cb) ≡ none)
  unfolding validate_enabled parsed_maximum
  fields_set cb e = ground arith

  maximum_ok :
      (cb : BudgetNamespaceCostBudgetSpec) (o : Option F)
      → maximum_error r cb o ≡ none
      → (m : F) × (o ≡ some m)
        × (r.floats.le_float m r.floats.zero_float ≡ false)
        × IsDurationOrBlank cb.lookback_window
        × IsDurationOrBlank cb.query_interval
  unfolding maximum_error
  maximum_ok cb none e = absurd (ground arith)
  maximum_ok cb (some m) e =
      let (positive, windows) = above_zero (r.floats.le_float m r.floats.zero_float) _ _ e in
      let (lookback, later) = window_ok _ cb.lookback_window _ windows in
      let (interval, _) = window_ok _ cb.query_interval none later in
      (m, refl, positive, lookback, interval)

  complete : (cb : BudgetNamespaceCostBudgetSpec) → validate_enabled r cb ≡ none → IsComplete cb
  unfolding parsed_maximum
  complete cb e =
      let (table, cluster, max_set, found) = fields_set cb e in
      let (m, parsed, positive, lookback, interval) = maximum_ok cb (parsed_maximum cb) found in
      record {
        table_set = table;
        cluster_set = cluster;
        maximum_set = max_set;
        maximum = m;
        maximum_parsed = parsed;
        maximum_positive = positive;
        lookback_window = lookback;
        query_interval = interval;
      }

  completed : (cb : BudgetNamespaceCostBudgetSpec) → IsComplete cb → validate_enabled r cb ≡ none
  unfolding validate_enabled maximum_error
  completed cb c =
      let later =
        window_none "parse spec.costBudget.queryInterval: %w" cb.query_interval none
          c.query_interval refl in
      let windows =
        window_none "parse spec.costBudget.lookbackWindow: %w" cb.lookback_window _
          c.lookback_window later in
      ground
        (arith, c.table_set, c.cluster_set, c.maximum_set, c.maximum_parsed, c.maximum_positive)

  validated :
      (o : Option BudgetNamespaceCostBudgetSpec) → (validate_cost_budget r o ≡ none) ↔ IsAccepted o
  unfolding validate_cost_budget
  validated none = (λ _. tt, λ _. refl)
  validated (some cb) =
      unless_off cb.enabled (validate_enabled r cb) (IsComplete cb) (complete cb, completed cb)

  -- A cost budget is accepted exactly when there is none, it is not enabled, or its table, cluster
  -- and maximum are written, the maximum parses and is not at or below zero, and both windows are
  -- Go durations or left out.
  pub valid_iff :
      (spec : BudgetNamespaceSpec)
      → (validate_cost_budget_spec r spec ≡ none) ↔ IsAccepted spec.cost_budget
  unfolding validate_cost_budget_spec
  valid_iff spec = validated spec.cost_budget

  within_known :
      (spend m : F) (max_usd : Result Error F)
      → max_usd ≡ ok m
      → within_maximum r spend max_usd
        ≡ ok (r.floats.lt_float (r.floats.add_float spend r.floats.epsilon) m)
  unfolding within_maximum
  within_known spend m max_usd e = ap (λ (x : Result Error F). within_maximum r spend x) e

  pub within_enabled :
      (spec : BudgetNamespaceSpec) (spend m : F)
      → cost_budget_enabled spec ≡ true
      → cost_budget_max_usd r spec.cost_budget ≡ ok m
      → within_cost_budget_for_restore r spec spend
        ≡ ok (r.floats.lt_float (r.floats.add_float spend r.floats.epsilon) m)
  unfolding within_cost_budget_for_restore
  within_enabled spec spend m on known =
      ap
        (λ (b : Bool).
          if not b
          then ok true
          else within_maximum r spend (cost_budget_max_usd r spec.cost_budget))
        on
      ∙ within_known spend m (cost_budget_max_usd r spec.cost_budget) known

  pub enabled_of :
      (spec : BudgetNamespaceSpec) (cb : BudgetNamespaceCostBudgetSpec)
      → spec.cost_budget ≡ some cb
      → cb.enabled ≡ true
      → cost_budget_enabled spec ≡ true
  unfolding cost_budget_enabled
  enabled_of spec cb here on = ap is_enabled here ∙ on

  pub maximum_of :
      (spec : BudgetNamespaceSpec) (cb : BudgetNamespaceCostBudgetSpec) (m : F)
      → spec.cost_budget ≡ some cb
      → r.floats.parse_float (trim_space cb.max_spend_usd) ≡ some m
      → cost_budget_max_usd r spec.cost_budget ≡ ok m
  unfolding cost_budget_max_usd
  maximum_of spec cb m here parsed = ap (cost_budget_max_usd r) here ∙ ground arith

  never_over :
      (nan : F)
      → ((x : F) → r.floats.le_float nan x ≡ false)
      → (spend : F) → spend_at_or_over_max r spend nan ≡ false
  unfolding spend_at_or_over_max
  never_over nan not_le spend = not_le (r.floats.add_float spend r.floats.epsilon)

  -- A maximum that parses to a value which compares with nothing (strconv.ParseFloat accepts "NaN")
  -- passes the validation, no spend is ever at or over it, and none is ever within it for a
  -- restore.
  pub unordered_maximum :
      (spec : BudgetNamespaceSpec) (cb : BudgetNamespaceCostBudgetSpec) (nan : F)
      → spec.cost_budget ≡ some cb
      → is_blank cb.billing_export_table ≡ false
      → is_blank cb.cluster_name ≡ false
      → is_blank cb.max_spend_usd ≡ false
      → IsDurationOrBlank cb.lookback_window
      → IsDurationOrBlank cb.query_interval
      → cb.enabled ≡ true
      → r.floats.parse_float (trim_space cb.max_spend_usd) ≡ some nan
      → ((x : F) → r.floats.le_float nan x ≡ false)
      → ((x : F) → r.floats.lt_float x nan ≡ false)
      → (validate_cost_budget_spec r spec ≡ none)
        × ((spend : F) → spend_at_or_over_max r spend nan ≡ false)
        × ((spend : F) → within_cost_budget_for_restore r spec spend ≡ ok false)
  unordered_maximum spec cb nan here table cluster max_set lookback interval on parsed not_le
        not_lt =
      let complete_cb : IsComplete cb = record {
        table_set = table;
        cluster_set = cluster;
        maximum_set = max_set;
        maximum = nan;
        maximum_parsed = parsed;
        maximum_positive = not_le r.floats.zero_float;
        lookback_window = lookback;
        query_interval = interval;
      } in
      (
        (valid_iff spec).1 (subst IsAccepted (sym here) (inr complete_cb)),
        never_over nan not_le,
        λ spend.
            within_enabled spec spend nan (enabled_of spec cb here on)
              (maximum_of spec cb nan here parsed)
            ∙ ap (λ (b : Bool). let x : Result Error Bool = ok b in x)
                (not_lt (r.floats.add_float spend r.floats.epsilon)),
      )
