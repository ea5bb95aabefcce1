-- ===== src/Controller/Reconcile/Recorded.antt =====
-- The branches of Reconcile, and what each records of its enforcement.
use costguard_operator.Base.{
  ℕ, ◌≡◌, refl, subst, inl, inr, String, Bool, true, false, Option, some, if◌then◌else◌, ltb, arith,
}
use costguard_operator.Go.Time.{Time}
use costguard_operator.Kube.{Error, Result, failure}
use costguard_operator.Kube.Action.{Call, World, Action, pure, ◌>>=◌, sense}
use costguard_operator.Kube.Action.Emits.{Emits, Grows, Grows-refl}
use costguard_operator.Kube.Action.OnOk.{OnOk, OnOk-bind, OnOk-pure, on_error-OnOk}
use costguard_operator.Controller.Reconciler.{
  Reconciler, record_warning, enforcement_op_scale_to_zero, enforcement_op_restore,
}
use costguard_operator.Controller.Scale.{
  scaled_to_zero, scale_context, scale_items, scale_deployments_to_zero,
  scale_stateful_sets_to_zero, scale_workloads_to_zero,
}
use costguard_operator.Controller.Restore.{
  restored, restore_context, restore_items, restore_deployments_from_annotation,
  restore_stateful_sets_from_annotation, restore_scaled_workloads,
}
use costguard_operator.Controller.Enforce.{
  Progress, warn, note_scaled, note_restored, scale_down, scale_in_grace, restore_now,
}
use costguard_operator.Controller.Patching.Counted.{Counted, both-Counted}
use costguard_operator.Controller.Reconcile.Emissions.{record_normal-Emits}
use costguard_operator.Controller.Reconcile.OnlyScaling.{OnlyScales}
use costguard_operator.Controller.Reconcile.Recording.{
  NoPatch, OnlyRestores, scales_none, restores_none, Stamped, Noted, Tells, Tells-counts,
}

module _ {F Q S : Type 0} (r : Reconciler F Q S) where
  scaling-Counted :
      (namespace : String) (w : World S)
      → OnOk (λ n w'. Counted OnlyScales w.calls n w'.calls) (scale_workloads_to_zero r namespace) w
  unfolding scale_workloads_to_zero scale_deployments_to_zero scale_stateful_sets_to_zero
      scale_items
  scaling-Counted namespace w =
      both-Counted r scaled_to_zero scale_context namespace OnlyScales (λ kind o m e. e) w

  restoring-Counted :
      (namespace : String) (w : World S)
      → OnOk
          (λ n w'. Counted OnlyRestores w.calls n w'.calls)
          (restore_scaled_workloads r namespace)
          w
  unfolding restore_scaled_workloads restore_deployments_from_annotation
      restore_stateful_sets_from_annotation restore_items
  restoring-Counted namespace w =
      both-Counted r restored restore_context namespace OnlyRestores (λ kind o m e. e) w

  warn-OnOk :
      {A : Type 0} (R : A → World S → Type 0) (reason : String) (m : Action S A) (w : World S)
      → OnOk R m w
      → OnOk R (warn r reason m) w
  unfolding warn
  warn-OnOk R reason m w h = on_error-OnOk R (λ e. record_warning r reason (failure e)) m w h

  -- The time of an enforcement is read, its event is emitted, and both are recorded.
  stamping :
      (p : Progress) (stamp : String) (announce : Action S (Unit {0})) (w : World S)
      → Emits NoPatch announce
      → OnOk
          (λ q w'. Grows NoPatch w.calls w'.calls × Stamped stamp q)
          (sense r.client.now >>= λ t.
            announce >>= λ _. pure (record p { last_enf_at = some t; last_enf_op = stamp }))
          w
  stamping p stamp announce w quiet =
      let (t, s) = r.client.now w.server in
      let w1 : World S = record w { server = s } in
      let rest =
        OnOk-bind (λ u w2. Grows NoPatch w.calls w2.calls)
          (λ q w'. Grows NoPatch w.calls w'.calls × Stamped stamp q) announce
          (λ _. pure (record p { last_enf_at = some t; last_enf_op = stamp })) w1
          (record {
            of_run = λ w2 u e.
                subst (λ (q : Result Error (Unit {0}) × World S). Grows NoPatch w.calls q.1.calls) e
                  (quiet.at w1);
          })
          (λ u w2 g.
            OnOk-pure (λ q w'. Grows NoPatch w.calls w'.calls × Stamped stamp q)
              (record p { last_enf_at = some t; last_enf_op = stamp }) w2 (g, (refl, t, refl))) in
      record { of_run = λ w' q e. rest.of_run w' q e }

  module _ (op : String) (at : Option Time) where
    by_count :
        (P : Call → Type 0) (stamp : String) (n : ℕ) (p : Progress) (m : Action S Progress)
        (w : World S)
        → p.last_enf_op ≡ op
        → p.last_enf_at ≡ at
        → OnOk (λ q w'. Grows NoPatch w.calls w'.calls × Stamped stamp q) m w
        → (b : Bool) → ltb 0 n ≡ b
        → OnOk (λ q w'. Noted op at P stamp w.calls n q w'.calls) (if b then m else pure p) w
    by_count P stamp n p m w same_op same_at stamped true e = record {
      of_run = λ w' q run. let (g, x) = stamped.of_run w' q run in (g, inr (not_zero, x));
    }
      where
        not_zero : n ≡ 0 → ⊥
        not_zero zero = ground (arith, e)
    by_count P stamp n p m w same_op same_at stamped false e =
        OnOk-pure (λ q w'. Noted op at P stamp w.calls n q w'.calls) p w
          (Grows-refl NoPatch w.calls, inl (none_counted, same_op, same_at))
      where
        none_counted : n ≡ 0
        none_counted = ground (arith, e)

    note_scaled-Noted :
        (p : Progress) (n : ℕ) (announce : Action S (Unit {0})) (w : World S)
        → p.last_enf_op ≡ op
        → p.last_enf_at ≡ at
        → Emits NoPatch announce
        → OnOk
            (λ q w'. Noted op at OnlyScales enforcement_op_scale_to_zero w.calls n q w'.calls)
            (note_scaled r p n announce)
            w
    unfolding note_scaled
    note_scaled-Noted p n announce w same_op same_at quiet =
        by_count OnlyScales enforcement_op_scale_to_zero n p _ w same_op same_at
          (stamping p enforcement_op_scale_to_zero announce w quiet) (ltb 0 n) refl

    note_restored-Noted :
        (p : Progress) (n : ℕ) (w : World S)
        → p.last_enf_op ≡ op
        → p.last_enf_at ≡ at
        → OnOk
            (λ q w'. Noted op at OnlyRestores enforcement_op_restore w.calls n q w'.calls)
            (note_restored r p n)
            w
    unfolding note_restored
    note_restored-Noted p n w same_op same_at =
        by_count OnlyRestores enforcement_op_restore n p _ w same_op same_at
          (stamping p enforcement_op_restore _ w (record_normal-Emits r NoPatch _ _)) (ltb 0 n) refl

    scaling-Tells :
        (p : Progress) (announce : ℕ → Action S (Unit {0}))
        → p.last_enf_op ≡ op
        → p.last_enf_at ≡ at
        → ((n : ℕ) → Emits NoPatch (announce n))
        → Tells op at (
            warn r "ScaleToZeroFailed"
              (scale_workloads_to_zero r p.budget_namespace.spec.namespace_name)
            >>= λ count. note_scaled r p count (announce count))
    scaling-Tells p announce same_op same_at quiet =
        Tells-counts op at OnlyScales enforcement_op_scale_to_zero scales_none
          (λ a c q x. inr (inl x))
          (warn r "ScaleToZeroFailed"
            (scale_workloads_to_zero r p.budget_namespace.spec.namespace_name))
          (λ count. note_scaled r p count (announce count))
          (λ w.
            warn-OnOk _ "ScaleToZeroFailed" _ w
              (scaling-Counted p.budget_namespace.spec.namespace_name w))
          (λ n w. note_scaled-Noted p n (announce n) w same_op same_at (quiet n))

    pub scale_down-Tells :
        (p : Progress) → p.last_enf_op ≡ op → p.last_enf_at ≡ at → Tells op at (scale_down r p)
    unfolding scale_down
    scale_down-Tells p same_op same_at =
        scaling-Tells p _ same_op same_at (λ n. record_normal-Emits r NoPatch _ _)

    pub scale_in_grace-Tells :
        (p : Progress) → p.last_enf_op ≡ op → p.last_enf_at ≡ at → Tells op at (scale_in_grace r p)
    unfolding scale_in_grace
    scale_in_grace-Tells p same_op same_at =
        scaling-Tells p _ same_op same_at (λ n. record_normal-Emits r NoPatch _ _)

    pub restore_now-Tells :
        (p : Progress) → p.last_enf_op ≡ op → p.last_enf_at ≡ at → Tells op at (restore_now r p)
    unfolding restore_now
    restore_now-Tells p same_op same_at =
        Tells-counts op at OnlyRestores enforcement_op_restore restores_none
          (λ a c q x. inr (inr x))
          (warn r "RestoreFailed"
            (restore_scaled_workloads r p.budget_namespace.spec.namespace_name))
          (note_restored r p)
          (λ w.
            warn-OnOk _ "RestoreFailed" _ w
              (restoring-Counted p.budget_namespace.spec.namespace_name w))
          (λ n w. note_restored-Noted p n w same_op same_at)
