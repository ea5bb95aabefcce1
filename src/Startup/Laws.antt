-- ===== src/Startup/Laws.antt =====
-- What the start-up guarantees.
use costguard_operator.Base.{
  ◌≡◌, refl, sym, ap, ◌∙◌, subst, ◌⊎◌, inl, inr, String, Bool, true, false, not, List, [], ◌∷◌,
  ◌++◌, ◌==◌, All, if◌then◌else◌, arith, Bool-cases,
}
use costguard_operator.Go.Text.{trim_space}
use costguard_operator.Go.Time.{Time}
use costguard_operator.Api.{BudgetNamespace}
use costguard_operator.Billing.{BigQuery}
use costguard_operator.Kube.{Error, errorf, Result, ok, err}
use costguard_operator.Kube.Action.{World}
use costguard_operator.Controller.Cost.{
  cost_budget_enabled, resolve_namespace_spend_usd, resolve_valid,
}
use costguard_operator.Startup.Options.{
  Flags, TlsConfig, disable_http2, tls_opts, webhook_server_options, no_filter,
  with_authentication_and_authorization, filtered_metrics_options, metrics_server_options,
  manager_options,
}
use costguard_operator.Startup.Main.{
  Runtime, first_non_empty_env, project_id, spend_querier_of, budget_namespace_reconciler,
  run_manager, start_controller,
}

-- The options of a server are applied in order.
unfoldable pub configure : List (TlsConfig → TlsConfig) → TlsConfig → TlsConfig
configure [] c = c
configure (f ∷ fs) c = configure fs (f c)

-- The protocols that a server offers, given those that it would offer by itself.
abbrev pub protocols : Flags → List String → List String
protocols flags own = if flags.enable_http2 then own else "http/1.1" ∷ []

configure-tls_opts :
    (flags : Flags) (c : TlsConfig)
    → (configure (tls_opts flags) c).next_protos ≡ protocols flags c.next_protos
unfolding configure tls_opts disable_http2
configure-tls_opts flags c = ground arith

-- Unless HTTP/2 is enabled by its flag, both servers offer HTTP/1.1 alone, whatever their other
-- options are, and otherwise what they would offer by themselves; the metrics are behind the
-- authentication exactly when they are served securely.
pub served_protocols :
    (flags : Flags) (c : TlsConfig)
    → let options = manager_options flags in
      ((configure options.webhook_server.tls_opts c).next_protos ≡ protocols flags c.next_protos)
      × ((configure options.metrics.tls_opts c).next_protos ≡ protocols flags c.next_protos)
      × (options.metrics.secure_serving ≡ flags.secure_metrics)
      × (options.metrics.filter_provider ≡ (
          if options.metrics.secure_serving
          then with_authentication_and_authorization
          else no_filter))
unfolding manager_options webhook_server_options metrics_server_options filtered_metrics_options
served_protocols flags c = ground (arith, configure-tls_opts flags c)

-- The key has no value but spaces.
abbrev pub IsBlank : (String → String) → String → Type 0
IsBlank getenv k = (trim_space (getenv k) == "") ≡ true

-- The value found is that of one of the keys, trimmed, and every key before it is blank.
pub record FirstValue (getenv : String → String) (keys : List String) (value : String)
    : Type 0 where
  pub key : String
  pub skipped : List String
  pub rest : List String
  pub split : keys ≡ skipped ++ key ∷ rest
  pub all_blank : All (IsBlank getenv) skipped
  pub is_value : value ≡ trim_space (getenv key)
  pub not_blank : (value == "") ≡ false

skip_key :
    {getenv : String → String} {k : String} {keys : List String} {value : String}
    → IsBlank getenv k
    → FirstValue getenv keys value
    → FirstValue getenv (k ∷ keys) value
skip_key {k} blank v = record {
  key = v.key;
  skipped = k ∷ v.skipped;
  rest = v.rest;
  split = ap (λ (l : List String). k ∷ l) v.split;
  all_blank = (blank, v.all_blank);
  is_value = v.is_value;
  not_blank = v.not_blank;
}

negated : {b : Bool} → not b ≡ true → b ≡ false
negated h = ground arith

affirmed : {b : Bool} → not b ≡ false → b ≡ true
affirmed h = ground arith

-- Either every key is blank and the result is the empty text, or the result is the trimmed value of
-- the first key that is not blank.
first_env_found :
    (getenv : String → String) (keys : List String)
    → (All (IsBlank getenv) keys × (first_non_empty_env getenv keys ≡ ""))
      ⊎ FirstValue getenv keys (first_non_empty_env getenv keys)
unfolding first_non_empty_env
first_env_found getenv [] = inl (tt, refl)
first_env_found getenv (k ∷ keys) =
    let ih = first_env_found getenv keys in
    let found = trim_space (getenv k) in
    let later = first_non_empty_env getenv keys in
    elim (Bool-cases (not (found == ""))) [
      | inl set ↦ inr (
          subst (FirstValue getenv (k ∷ keys))
            (sym (ap (λ (b : Bool). if b then found else later) set))
            (record {
              key = k;
              skipped = [];
              rest = keys;
              split = refl;
              all_blank = tt;
              is_value = refl;
              not_blank = negated set;
            }))
      | inr unset ↦
          let same = ap (λ (b : Bool). if b then found else later) unset in
          elim ih [
            | inl (blank, none_found) ↦ inl ((affirmed unset, blank), same ∙ none_found)
            | inr v ↦
                inr (subst (FirstValue getenv (k ∷ keys)) (sym same) (skip_key (affirmed unset) v))
          ]
    ]

swapped :
    {W A : Type 0} (b : Bool) (x y : A) (f g : W → A) (w : W)
    → g w ≡ x
    → f w ≡ y
    → (if not b then f else g) w ≡ (if b then x else y)
swapped true x y f g w p q = p
swapped false x y f g w p q = q

module _ {F Q S Config Manager : Type 0} (runtime : Runtime F Q S Config Manager) where
  -- The failure of an evaluation of the spend for want of a client.
  abbrev pub not_configured : Error
  not_configured =
      errorf "cost budget is enabled but BigQuery client is not configured on the operator"

  -- Where the BigQuery client cannot be made, the start-up goes on with a reconciler that has no
  -- querier: for every BudgetNamespace with a cost budget enabled the evaluation of the spend fails,
  -- without a request or a reading of the clock, and no other is hindered.
  pub without_bigquery :
      (mgr : Manager) (e : Error) (s s1 : S)
      → runtime.new_bigquery_client (project_id runtime) s ≡ (err e, s1)
      → (start_controller runtime mgr s ≡ run_manager runtime mgr (err e) s1)
        × ((bn : BudgetNamespace) (now : Time) (w : World S)
            → resolve_namespace_spend_usd (budget_namespace_reconciler runtime mgr (err e)) bn now w
              ≡ (if cost_budget_enabled bn.spec
                  then (err not_configured, w)
                  else (ok (runtime.floats.zero_float, bn), w)))
  unfolding start_controller resolve_namespace_spend_usd resolve_valid spend_querier_of
  without_bigquery mgr e s s1 failed = (
    ap (λ (q : Result Error (BigQuery F S) × S). run_manager runtime mgr q.0 q.1) failed,
    λ bn now w.
        swapped (cost_budget_enabled bn.spec) (err not_configured, w)
          (ok (runtime.floats.zero_float, bn), w) (λ v. (ok (runtime.floats.zero_float, bn), v))
          (λ v. (err not_configured, v)) w refl refl,
  )
