-- ===== src/Startup/Main.antt =====
-- cmd/main.go, the second half of main, and SetupWithManager of
-- internal/controller/budgetnamespace_controller.go. controller-runtime, the flag package, the
-- environment and the BigQuery client are a parameter, Runtime.
use costguard_operator.Base.{
  ℕ, String, Bool, true, not, List, [], ◌∷◌, Option, none, some, ◌==◌, if◌then◌else◌,
}
use costguard_operator.Go.Text.{trim_space}
use costguard_operator.Billing.{BigQuery, new_spend_querier}
use costguard_operator.Kube.{
  Error, Result, ok, err, NamespacedName, Client, Floats, Quantities, NamespaceSpendQuerier,
  ResourceQuota,
}
use costguard_operator.Kube.Action.{Action}
use costguard_operator.Controller.Reconciler.{Reconciler}
use costguard_operator.Controller.Reconcile.{ReconcileResult, reconcile}
use costguard_operator.Controller.Watches.{is_watched, resource_quota_to_requests}
use costguard_operator.Startup.Options.{Flags, default_flags, ManagerOptions, manager_options}

-- What SetupWithManager hands to the builder: the controller's name, the predicate and the mapping of
-- the ResourceQuota watch, and the reconciler's method.
pub record ControllerSpec (Q S : Type 0) : Type 0 where
  pub name : String
  pub watches_quota : Option (ResourceQuota Q) → Bool
  pub quota_requests : Option (ResourceQuota Q) → Action S (List NamespacedName)
  pub run : NamespacedName → Action S ReconcileResult

abbrev pub ExitCode : Type 0
ExitCode = ℕ

-- flag.Parse and GetConfigOrDie end the process themselves, with an exit code; the other operations
-- return an error.
pub record Runtime (F Q S Config Manager : Type 0) : Type 0 where
  pub parse_flags : Flags → Result ExitCode Flags
  pub getenv : String → String
  pub get_config_or_die : S → Result ExitCode Config × S
  pub new_manager : Config → ManagerOptions → S → Result Error Manager × S
  pub get_client : Manager → Client Q S
  pub new_bigquery_client : String → S → Result Error (BigQuery F S) × S
  pub complete : ControllerSpec Q S → Manager → S → Result Error (Unit {0}) × S
  pub add_healthz_check : String → Manager → S → Result Error (Unit {0}) × S
  pub add_readyz_check : String → Manager → S → Result Error (Unit {0}) × S
  pub start : Manager → S → Result Error (Unit {0}) × S
  pub floats : Floats F
  pub quantities : Quantities Q

-- firstNonEmptyEnv
unfoldable pub first_non_empty_env : (String → String) → List String → String
first_non_empty_env getenv [] = ""
first_non_empty_env getenv (k ∷ keys) =
    let rest = first_non_empty_env getenv keys in
    if not (trim_space (getenv k) == "") then trim_space (getenv k) else rest

-- A part of main: it ends the process with a code, or goes on.
abbrev pub Startup : Type 0 → Type 0 → Type 0
Startup S A = S → Result ExitCode A × S

module _ {S A : Type 0} where
  abbrev pub settled : Result ExitCode A → Startup S A
  settled result s = (result, s)

  -- `if err != nil { …; os.Exit(1) }`
  abbrev pub or_exit : (S → Result Error A × S) → Startup S A
  or_exit operation s =
      let (r, s') = operation s in elim r [ ok a ↦ (ok a, s') | err e ↦ (err 1, s') ]

  -- The error is looked at later.
  abbrev pub attempt : (S → A × S) → Startup S A
  attempt operation s = let (a, s') = operation s in (ok a, s')

module _ {S A B : Type 0} where
  infixl 5 ◌>>=◌ ◌>>◌
  abbrev pub ◌>>=◌ : Startup S A → (A → Startup S B) → Startup S B
  ◌>>=◌ m f s = let (r, s') = m s in elim r [ ok a ↦ f a s' | err code ↦ (err code, s') ]

  abbrev pub ◌>>◌ : Startup S A → Startup S B → Startup S B
  m >> k = m >>= λ _. k

module _ {F Q S Config Manager : Type 0} (runtime : Runtime F Q S Config Manager) where
  -- projectID
  abbrev pub project_id : String
  project_id =
      first_non_empty_env runtime.getenv
        ("GOOGLE_CLOUD_PROJECT" ∷ "GCLOUD_PROJECT" ∷ "GCP_PROJECT" ∷ [])

  -- The variable spendQuerier, which stays nil where the client cannot be made.
  unfoldable pub spend_querier_of : Result Error (BigQuery F S) → Option (NamespaceSpendQuerier F S)
  spend_querier_of (ok client) = some (new_spend_querier runtime.floats.zero_float client)
  spend_querier_of (err e) = none

  -- The literal &controller.BudgetNamespaceReconciler{…}; GetEventRecorder returns a recorder.
  abbrev pub budget_namespace_reconciler : Manager → Result Error (BigQuery F S) → Reconciler F Q S
  budget_namespace_reconciler mgr found = record {
    client = runtime.get_client mgr;
    floats = runtime.floats;
    quantities = runtime.quantities;
    has_recorder = true;
    spend_querier = spend_querier_of found;
  }

  -- SetupWithManager
  unfoldable pub setup_with_manager : Reconciler F Q S → Manager → S → Result Error (Unit {0}) × S
  setup_with_manager r mgr =
      runtime.complete
        (record {
          name = "budgetnamespace";
          watches_quota = is_watched;
          quota_requests = resource_quota_to_requests r;
          run = reconcile r;
        })
        mgr

  -- From SetupWithManager on.
  unfoldable pub run_manager : Manager → Result Error (BigQuery F S) → Startup S (Unit {0})
  run_manager mgr found = do
    or_exit (setup_with_manager (budget_namespace_reconciler mgr found) mgr)
    or_exit (runtime.add_healthz_check "healthz" mgr)
    or_exit (runtime.add_readyz_check "readyz" mgr)
    or_exit (runtime.start mgr)

  -- From the BigQuery client on.
  unfoldable pub start_controller : Manager → Startup S (Unit {0})
  start_controller mgr = do
    found ← attempt (runtime.new_bigquery_client project_id)
    run_manager mgr found

  -- main; its end without an exit is the exit code 0.
  unfoldable pub main : Startup S (Unit {0})
  main = do
    flags ← settled (runtime.parse_flags default_flags)
    config ← runtime.get_config_or_die
    mgr ← or_exit (runtime.new_manager config (manager_options flags))
    start_controller mgr
