-- ===== src/Startup/Order.antt =====
-- When main runs to its end, and with which code it ends otherwise.
use costguard_operator.Base.{◌↔◌, subst, ◌≡◌, refl, ap, ◌∙◌, ◌⊎◌, inl, inr}
use costguard_operator.Billing.{BigQuery}
use costguard_operator.Kube.{Error, Result, ok, err}
use costguard_operator.Startup.Options.{Flags, default_flags, manager_options}
use costguard_operator.Startup.Main.{
  Runtime, ExitCode, Startup, settled, or_exit, ◌>>=◌, ◌>>◌, project_id,
  budget_namespace_reconciler, setup_with_manager, run_manager, start_controller, main,
}
use costguard_operator.Startup.Ending.{
  Ends, Ends-step, Ends-last, Ends-or_exit, Ends-weaken, run_step, run_last,
}

module _ {F Q S Config Manager : Type 0} (runtime : Runtime F Q S Config Manager) where
  -- The last four steps: the manager runs after the controller and both checks are in place.
  pub record Ran (mgr : Manager) (found : Result Error (BigQuery F S)) (s s' : S) : Type 0 where
    pub s1 : S
    pub s2 : S
    pub s3 : S
    pub set_up :
        setup_with_manager runtime (budget_namespace_reconciler runtime mgr found) mgr s
        ≡ (ok tt, s1)
    pub healthy : runtime.add_healthz_check "healthz" mgr s1 ≡ (ok tt, s2)
    pub ready : runtime.add_readyz_check "readyz" mgr s2 ≡ (ok tt, s3)
    pub started : runtime.start mgr s3 ≡ (ok tt, s')

  -- Every step in its order, from the state `s` to `s'`. Of the BigQuery client only the answer
  -- matters, and it may be an error.
  pub record Completed (s s' : S) : Type 0 where
    pub flags : Flags
    pub config : Config
    pub mgr : Manager
    pub s1 : S
    pub s2 : S
    pub parsed : runtime.parse_flags default_flags ≡ ok flags
    pub configured : runtime.get_config_or_die s ≡ (ok config, s1)
    pub created : runtime.new_manager config (manager_options flags) s1 ≡ (ok mgr, s2)
    pub ran :
        Ran mgr
          (runtime.new_bigquery_client (project_id runtime) s2).0
          (runtime.new_bigquery_client (project_id runtime) s2).1
          s'

  -- Why the process ended with a code: it is 1, or that of the flags, or that of the configuration.
  abbrev pub Reason : S → ExitCode → Type 0
  Reason s code =
      (code ≡ 1)
      ⊎ ((runtime.parse_flags default_flags ≡ err code)
          ⊎ ((s1 : S) × (runtime.get_config_or_die s ≡ (err code, s1))))

  module _ (s0 : S) where
    abbrev Exit : ExitCode → Type 0
    Exit = Reason s0

    run_manager-Ends :
        (mgr : Manager) (found : Result Error (BigQuery F S)) (s : S)
        → Ends
            (λ (u : Unit {0}) (s' : S). Ran mgr found s s')
            Exit
            (run_manager runtime mgr found s)
    unfolding run_manager
    run_manager-Ends mgr found s =
        let P = λ (u : Unit {0}) (s' : S). Ran mgr found s s' in
        let set_up =
          setup_with_manager runtime (budget_namespace_reconciler runtime mgr found) mgr in
        let healthy = runtime.add_healthz_check "healthz" mgr in
        let ready = runtime.add_readyz_check "readyz" mgr in
        let last : Startup S (Unit {0}) = or_exit (runtime.start mgr) in
        let checked : Startup S (Unit {0}) = or_exit ready >> last in
        Ends-or_exit P Exit set_up (λ u. or_exit healthy >> checked) s (inl refl)
          (λ u1 s1 a.
            Ends-or_exit P Exit healthy (λ u. checked) s1 (inl refl)
              (λ u2 s2 b.
                Ends-or_exit P Exit ready (λ u. last) s2 (inl refl)
                  (λ u3 s3 c. Ends-last P Exit (runtime.start mgr) s3 (inl refl) (λ u4 s4 d.
                    record {
                      s1 = s1;
                      s2 = s2;
                      s3 = s3;
                      set_up = a;
                      healthy = b;
                      ready = c;
                      started = d;
                    }))))

    -- The rest of main, once there is a manager.
    start_controller-Ends :
        (mgr : Manager) (s : S) (P : Unit {0} → S → Type 0)
        → ((u : Unit {0}) (s' : S)
            → Ran mgr
                (runtime.new_bigquery_client (project_id runtime) s).0
                (runtime.new_bigquery_client (project_id runtime) s).1
                s'
            → P u s')
        → Ends P Exit (start_controller runtime mgr s)
    unfolding start_controller
    start_controller-Ends mgr s P k =
        let (found, s1) = runtime.new_bigquery_client (project_id runtime) s in
        Ends-weaken _ P Exit k (run_manager runtime mgr found s1) (run_manager-Ends mgr found s1)

  main-Ends : (s : S) → Ends (λ (u : Unit {0}) (s' : S). Completed s s') (Reason s) (main runtime s)
  unfolding main
  main-Ends s =
      let P = λ (u : Unit {0}) (s' : S). Completed s s' in
      let with_config = λ (flags : Flags) (config : Config).
        let m : Startup S (Unit {0}) =
          (or_exit (runtime.new_manager config (manager_options flags))
            >>= start_controller runtime) in
        m in
      let with_flags = λ (flags : Flags).
        let m : Startup S (Unit {0}) = (runtime.get_config_or_die >>= with_config flags) in m in
      Ends-step P (Reason s) (settled (runtime.parse_flags default_flags)) with_flags s
        (λ code s0 e. inr (inl (ap (λ (q : Result ExitCode Flags × S). q.0) e)))
        (λ flags s0 parsed.
          let same = ap (λ (q : Result ExitCode Flags × S). q.1) parsed in
          Ends-step P (Reason s) runtime.get_config_or_die (with_config flags) s0
            (λ code s1 e. inr (inr (s1, ap runtime.get_config_or_die same ∙ e)))
            (λ config s1 configured.
              Ends-or_exit P (Reason s) (runtime.new_manager config (manager_options flags))
                (start_controller runtime) s1 (inl refl)
                (λ mgr s2 created. start_controller-Ends s mgr s2 P (λ u s' ran. record {
                  flags = flags;
                  config = config;
                  mgr = mgr;
                  s1 = s1;
                  s2 = s2;
                  parsed = ap (λ (q : Result ExitCode Flags × S). q.0) parsed;
                  configured = ap runtime.get_config_or_die same ∙ configured;
                  created = created;
                  ran = ran;
                }))))

  run_manager-Ran :
      (mgr : Manager) (found : Result Error (BigQuery F S)) (s s' : S)
      → Ran mgr found s s'
      → run_manager runtime mgr found s ≡ (ok tt, s')
  unfolding run_manager
  run_manager-Ran mgr found s s' h =
      run_step (setup_with_manager runtime (budget_namespace_reconciler runtime mgr found) mgr)
        (λ u.
          or_exit (runtime.add_healthz_check "healthz" mgr)
          >> (or_exit (runtime.add_readyz_check "readyz" mgr) >> or_exit (runtime.start mgr)))
        s h.s1 tt h.set_up
      ∙ run_step (runtime.add_healthz_check "healthz" mgr)
          (λ u. or_exit (runtime.add_readyz_check "readyz" mgr) >> or_exit (runtime.start mgr)) h.s1
          h.s2 tt h.healthy
      ∙ run_step (runtime.add_readyz_check "readyz" mgr) (λ u. or_exit (runtime.start mgr)) h.s2
          h.s3 tt h.ready
      ∙ run_last (runtime.start mgr) h.s3 s' tt h.started

  main-Completed : (s s' : S) → Completed s s' → main runtime s ≡ (ok tt, s')
  unfolding main start_controller
  main-Completed s s' h =
      ap (λ (q : Result ExitCode Flags). (settled q >>= with_flags) s) h.parsed
      ∙ ap (λ (q : Result ExitCode Config × S). ((λ (t : S). q) >>= with_config h.flags) s)
          h.configured
      ∙ run_step (runtime.new_manager h.config (manager_options h.flags)) (start_controller runtime)
          h.s1 h.s2 h.mgr h.created
      ∙ run_manager-Ran h.mgr found.0 found.1 s' h.ran
    where
      found : Result Error (BigQuery F S) × S
      found = runtime.new_bigquery_client (project_id runtime) h.s2

      with_config : Flags → Config → Startup S (Unit {0})
      with_config flags config =
          or_exit (runtime.new_manager config (manager_options flags)) >>= start_controller runtime

      with_flags : Flags → Startup S (Unit {0})
      with_flags flags = runtime.get_config_or_die >>= with_config flags

  -- main runs to its end exactly when every step succeeds in its order (flags, configuration,
  -- manager, BigQuery client, controller, the two checks, and then the manager until it stops), the
  -- BigQuery client excepted, whose answer may be an error; otherwise the process ends with the
  -- code 1 or with that of the flags or of the configuration.
  pub main_outcome :
      (s s' : S)
      → ((main runtime s ≡ (ok tt, s')) ↔ Completed s s')
        × Ends (λ (u : Unit {0}) (final : S). Completed s final) (Reason s) (main runtime s)
  main_outcome s s' = (
    (
      λ e.
          subst (Ends (λ (u : Unit {0}) (final : S). Completed s final) (Reason s)) e (main-Ends s),
      main-Completed s s',
    ),
    main-Ends s,
  )
