-- ===== src/Examples/Starting.antt =====
-- A start-up with the default flags and one variable of the environment, on the small cluster.
use costguard_operator.Base.{◌↔◌, ◌≡◌, refl, ℕ, String, true, [], ◌∷◌, if◌then◌else◌, ◌==◌}
use costguard_operator.Go.Text.{trim_space}
use costguard_operator.Go.Time.{Time}
use costguard_operator.Api.{BudgetNamespace}
use costguard_operator.Kube.{Error, errorf, ok, err}
use costguard_operator.Kube.Action.{World}
use costguard_operator.Controller.Cost.{cost_budget_enabled, resolve_namespace_spend_usd}
use costguard_operator.Startup.Options.{
  default_flags, TlsConfig, no_filter, with_authentication_and_authorization, manager_options,
}
use costguard_operator.Startup.Main.{
  Runtime, first_non_empty_env, budget_namespace_reconciler, run_manager, start_controller, main,
}
use costguard_operator.Startup.Laws.{configure, served_protocols, not_configured, without_bigquery}
use costguard_operator.Startup.Ending.{Ends}
use costguard_operator.Startup.Order.{Completed, Reason, main_outcome}
use costguard_operator.Examples.Cluster.{Dollars, dollars, Cluster, reconciler, client, cluster}

abbrev environment : String → String
environment key =
    if key == "GCP_PROJECT" then " acme " else if key == "GCLOUD_PROJECT" then " " else ""

-- BigQuery without credentials.
abbrev no_credentials : Error
no_credentials = errorf "could not find default credentials"

abbrev runtime : Runtime Dollars ℕ Cluster (Unit {0}) (Unit {0})
runtime = record {
  parse_flags = λ flags. ok flags;
  getenv = environment;
  get_config_or_die = λ s. (ok tt, s);
  new_manager = λ config options s. (ok tt, s);
  get_client = λ mgr. client;
  new_bigquery_client = λ project s. (err no_credentials, s);
  complete = λ spec mgr s. (ok tt, s);
  add_healthz_check = λ name mgr s. (ok tt, s);
  add_readyz_check = λ name mgr s. (ok tt, s);
  start = λ mgr s. (ok tt, s);
  floats = reconciler.floats;
  quantities = reconciler.quantities;
}

abbrev plain_tls : TlsConfig
plain_tls = record { next_protos = "h2" ∷ "http/1.1" ∷ [] }

served_protocols_example :
    let options = manager_options default_flags in
    ((configure options.webhook_server.tls_opts plain_tls).next_protos ≡ "http/1.1" ∷ [])
    × ((configure options.metrics.tls_opts plain_tls).next_protos ≡ "http/1.1" ∷ [])
    × (options.metrics.secure_serving ≡ true)
    × (options.metrics.filter_provider ≡ (
        if options.metrics.secure_serving
        then with_authentication_and_authorization
        else no_filter))
served_protocols_example = served_protocols default_flags plain_tls

trimmed_project :
    first_non_empty_env environment ("GOOGLE_CLOUD_PROJECT" ∷ "GCLOUD_PROJECT" ∷ "GCP_PROJECT" ∷ [])
    ≡ "acme"
unfolding first_non_empty_env trim_space
trimmed_project = refl

without_bigquery_example :
    (start_controller runtime tt cluster ≡ run_manager runtime tt (err no_credentials) cluster)
    × ((bn : BudgetNamespace) (now : Time) (w : World Cluster)
        → resolve_namespace_spend_usd
            (budget_namespace_reconciler runtime tt (err no_credentials))
            bn
            now
            w
          ≡ (if cost_budget_enabled bn.spec
              then (err (not_configured runtime), w)
              else (ok (dollars 0, bn), w)))
without_bigquery_example = without_bigquery runtime tt no_credentials cluster cluster refl

main_outcome_example :
    ((main runtime cluster ≡ (ok tt, cluster)) ↔ Completed runtime cluster cluster)
    × Ends
        (λ (u : Unit {0}) (final : Cluster). Completed runtime cluster final)
        (Reason runtime cluster)
        (main runtime cluster)
main_outcome_example = main_outcome runtime cluster cluster
