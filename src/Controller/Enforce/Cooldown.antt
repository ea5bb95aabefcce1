-- ===== src/Controller/Enforce/Cooldown.antt =====
-- The recovery branch of Reconcile while the cooldown of canRestoreAfterScaleDown runs.
use costguard_operator.Base.{◌≡◌, Bool, true, false, arith}
use costguard_operator.Go.Time.{Time, Duration}
use costguard_operator.Kube.Action.{Call}
use costguard_operator.Kube.Action.Emits.{Emits, emits_rules}
use costguard_operator.Controller.Reconciler.{Reconciler}
use costguard_operator.Controller.Restore.{can_restore_after_scale_down}
use costguard_operator.Controller.Restore.Cooldown.{CooldownRuns, held_back_iff}
use costguard_operator.Controller.Enforce.{
  Progress, recover, restore_or_defer, defer_for_cost, defer_for_cooldown,
}
use costguard_operator.Controller.Reconcile.Emissions.{
  record_normal-Emits, workloads_pending_restore-Emits,
}

abbrev pub Nothing : Call → Type 0
Nothing call = ⊥

module _ {F Q S : Type 0} (r : Reconciler F Q S) where
  defer_for_cost-Nothing : (p : Progress) → Emits Nothing (defer_for_cost r p)
  unfolding defer_for_cost
  defer_for_cost-Nothing p = search (emits_rules, record_normal-Emits r Nothing)

  defer_for_cooldown-Nothing :
      (p : Progress) (cooldown : Duration) (now : Time)
      → Emits Nothing (defer_for_cooldown r p cooldown now)
  unfolding defer_for_cooldown
  defer_for_cooldown-Nothing p cooldown now = search (emits_rules, record_normal-Emits r Nothing)

  contradiction : {b : Bool} {A : Type 0} → b ≡ false → b ≡ true → A
  contradiction p q = absurd (ground arith)

  restore_or_defer-Nothing :
      (p : Progress) (cooldown : Duration) (now : Time) (within_cost : Bool)
      → can_restore_after_scale_down p.last_enf_op p.last_enf_at cooldown now ≡ false
      → Emits Nothing (restore_or_defer r p cooldown now within_cost)
  unfolding restore_or_defer
  restore_or_defer-Nothing p cooldown now within_cost held =
      search (emits_rules, defer_for_cost-Nothing, defer_for_cooldown-Nothing, contradiction held)

  -- While the cooldown runs after a scale-down that was recorded, the recovery sends no request,
  -- whatever the server answers and whatever the spend is.
  pub no_restore_in_cooldown :
      (p : Progress) (cooldown : Duration) (spend : F) (now : Time)
      → CooldownRuns p.last_enf_op p.last_enf_at cooldown now
      → Emits Nothing (recover r p cooldown spend now)
  unfolding recover
  no_restore_in_cooldown p cooldown spend now runs =
      let held = (held_back_iff p.last_enf_op p.last_enf_at cooldown now).1 runs in
      search (emits_rules, workloads_pending_restore-Emits r Nothing, restore_or_defer-Nothing)
        depth 8
