-- ===== src/Controller/Reconcile/Observed.antt =====
-- Which branches of Reconcile look at the quota and at the spend, and which look at neither.
use costguard_operator.Base.{◌≡◌, refl, ap, ℕ, String, Bool, true, false, not, ◌==◌}
use costguard_operator.Go.Duration.{parse_duration}
use costguard_operator.Go.Time.{Time, Duration, add}
use costguard_operator.Api.{BudgetNamespace}
use costguard_operator.Kube.{wrap, parse_error}
use costguard_operator.Kube.Action.{Action, pure, or_fail, ◌>>=◌}
use costguard_operator.Kube.Action.Ensures.{
  Ensures, ensures_rules, Ensures-pure, Ensures-if, Ensures-bind,
}
use costguard_operator.Controller.Reconciler.{Reconciler}
use costguard_operator.Controller.Quota.{should_scale_deployments_to_zero}
use costguard_operator.Controller.Ttl.{Ttl, no_ttl, ttl_waiting, ttl_state, ttl_at, ttl_requeue}
use costguard_operator.Controller.Ensure.{ensure_resources}
use costguard_operator.Controller.Enforce.{
  scale_in_grace, Progress, start_progress, note_scaled, enforce_budget,
}
use costguard_operator.Controller.Reconcile.{enforce_live, act_live, act_deleting, act}
use costguard_operator.Controller.Reconcile.Looked.{Found, enforce_budget-Found}

clash : {b : Bool} → b ≡ true → b ≡ false → ⊥
clash p q = cc

module _ {F Q S : Type 0} (r : Reconciler F Q S) where
  started-Found :
      (bn : BudgetNamespace) (now : Time)
      → Ensures (Found r bn) (enforce_budget r (start_progress bn) now)
  unfolding start_progress
  started-Found bn now = enforce_budget-Found r (start_progress bn) now refl

  act_live-Found :
      (bn : BudgetNamespace) (now : Time)
      → should_scale_deployments_to_zero bn.spec ≡ true
      → Ensures (Found r bn) (act_live r bn now)
  unfolding act_live enforce_live
  act_live-Found bn now on =
      Ensures-bind (ensure_resources r bn.spec) (λ u. enforce_live r bn now)
        (λ u.
          Ensures-if (should_scale_deployments_to_zero bn.spec)
            (enforce_budget r (start_progress bn) now) (pure (start_progress bn))
            (λ e. started-Found bn now) (λ off. absurd (clash on off)))

  -- A live BudgetNamespace with the enforcement on has its quota and its spend looked at.
  pub act-Found :
      (bn : BudgetNamespace) (now : Time) (ttl : Ttl)
      → ttl.expired ≡ false
      → should_scale_deployments_to_zero bn.spec ≡ true
      → Ensures (Found r bn) (act r bn now ttl)
  unfolding act
  act-Found bn now ttl live on =
      Ensures-if (not ttl.expired) (act_live r bn now) _ (λ e. act_live-Found bn now on)
        (λ gone. absurd (clash (ap not live) gone))

  -- Only a TTL that is set runs out.
  abbrev pub Coherent : String → Ttl → Type 0
  Coherent text ttl = (text == "") ≡ true → ttl.expired ≡ false

  ttl_at-Coherent :
      (text : String) (expiry now : Time)
      → (text == "") ≡ false
      → Ensures (Coherent text) (ttl_at r expiry now)
  unfolding ttl_at
  ttl_at-Coherent text expiry now set =
      Ensures-bind (ttl_requeue r expiry now) (λ wait. pure (ttl_waiting expiry now wait))
        (λ wait. Ensures-pure (ttl_waiting expiry now wait) (λ unset. absurd (clash unset set)))

  pub ttl_state-Coherent :
      (text : String) (creation now : Time)
      → Ensures (Coherent text) (ttl_state r text creation now)
  unfolding ttl_state
  ttl_state-Coherent text creation now =
      Ensures-if (text == "") (pure no_ttl)
        (parsed_ttl >>= (λ ttl_duration. ttl_at r (add creation ttl_duration) now))
        (λ e. Ensures-pure no_ttl (λ unset. refl))
        (λ set.
          Ensures-bind parsed_ttl (λ ttl_duration. ttl_at r (add creation ttl_duration) now)
            (λ d. ttl_at-Coherent text (add creation d) now set))
    where
      parsed_ttl : Action S Duration
      parsed_ttl =
          or_fail (wrap "parse spec.ttl %q: %w" (parse_error text))
            (parse_duration r.floats.fraction_of text)

  -- A BudgetNamespace whose TTL has run out does not have its quota looked at.
  abbrev pub SkipsQuota : Action S Progress → Type 0
  SkipsQuota = Ensures (λ (p : Progress). p.quota_evaluated ≡ false)

  note_scaled-SkipsQuota :
      (p : Progress) (n : ℕ) (announce : Action S (Unit {0}))
      → p.quota_evaluated ≡ false
      → SkipsQuota (note_scaled r p n announce)
  unfolding note_scaled
  note_scaled-SkipsQuota p n announce h = search ensures_rules depth 8

  started_unevaluated : (bn : BudgetNamespace) → (start_progress bn).quota_evaluated ≡ false
  unfolding start_progress
  started_unevaluated bn = refl

  scale_in_grace-SkipsQuota :
      (bn : BudgetNamespace) → SkipsQuota (scale_in_grace r (start_progress bn))
  unfolding scale_in_grace
  scale_in_grace-SkipsQuota bn = search (ensures_rules, note_scaled-SkipsQuota, started_unevaluated)

  act_deleting-SkipsQuota : (bn : BudgetNamespace) → SkipsQuota (act_deleting r bn)
  unfolding act_deleting
  act_deleting-SkipsQuota bn = search (ensures_rules, started_unevaluated)

  pub act-SkipsQuota :
      (bn : BudgetNamespace) (now : Time) (ttl : Ttl)
      → ttl.expired ≡ true
      → SkipsQuota (act r bn now ttl)
  unfolding act
  act-SkipsQuota bn now ttl gone =
      Ensures-if (not ttl.expired) (act_live r bn now) _ (λ live. absurd (clash live (ap not gone)))
        (λ e.
          search
            (ensures_rules, scale_in_grace-SkipsQuota, act_deleting-SkipsQuota, started_unevaluated)
            depth 8)
