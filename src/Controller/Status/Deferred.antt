-- ===== src/Controller/Status/Deferred.antt =====
-- The condition EnforcementRecoveryDeferred after the step that restores or puts the restore off.
use costguard_operator.Base.{
  ◌≡◌, ◌↔◌, sym, ap, ◌∙◌, subst, ◌⊎◌, ℕ, String, Bool, true, false, not, ◌&&◌, arith,
}
use costguard_operator.Go.Time.{Time, Duration}
use costguard_operator.Kube.{ok}
use costguard_operator.Kube.Action.{World}
use costguard_operator.Kube.Action.Ensures.{Ensures, ensures_rules, Ensures-if}
use costguard_operator.Controller.Reconciler.{Reconciler}
use costguard_operator.Controller.Quota.{should_scale_deployments_to_zero}
use costguard_operator.Controller.Restore.{can_restore_after_scale_down}
use costguard_operator.Controller.Restore.Cooldown.{CooldownRuns, held_back_iff}
use costguard_operator.Controller.Enforce.{
  Progress, note_restored, restore_now, defer_for_cost, defer_for_cooldown, restore_or_defer,
}
use costguard_operator.Controller.Status.Laws.{truth, true_iff, one_of}
use costguard_operator.Controller.Status.{recovery_condition}

-- The restore was put off for the cooldown or not; the rest that the condition reads is as it was.
abbrev Marked : Progress → Bool → Progress → Type 0
Marked p deferred q =
    (q.recovery_deferred ≡ deferred)
    × (q.quota_evaluated ≡ p.quota_evaluated)
    × (q.budget_namespace.spec ≡ p.budget_namespace.spec)

module _ {F Q S : Type 0} (r : Reconciler F Q S) where
  note_restored-Marked :
      (p : Progress) (n : ℕ)
      → p.recovery_deferred ≡ false
      → Ensures (Marked p false) (note_restored r p n)
  unfolding note_restored
  note_restored-Marked p n fresh = search ensures_rules depth 8

  restore_now-Marked :
      (p : Progress) → p.recovery_deferred ≡ false → Ensures (Marked p false) (restore_now r p)
  unfolding restore_now
  restore_now-Marked p fresh = search (ensures_rules, note_restored-Marked)

  defer_for_cost-Marked :
      (p : Progress) → p.recovery_deferred ≡ false → Ensures (Marked p false) (defer_for_cost r p)
  unfolding defer_for_cost
  defer_for_cost-Marked p fresh = search ensures_rules

  defer_for_cooldown-Marked :
      (p : Progress) (cooldown : Duration) (now : Time)
      → Ensures (Marked p true) (defer_for_cooldown r p cooldown now)
  unfolding defer_for_cooldown
  defer_for_cooldown-Marked p cooldown now = search ensures_rules

  restore_or_defer-Marked :
      (p : Progress) (cooldown : Duration) (now : Time) (within_cost : Bool)
      → p.recovery_deferred ≡ false
      → Ensures
          (Marked p (
            within_cost
            && not (can_restore_after_scale_down p.last_enf_op p.last_enf_at cooldown now)))
          (restore_or_defer r p cooldown now within_cost)
  unfolding restore_or_defer
  restore_or_defer-Marked p cooldown now within_cost fresh =
      let can = can_restore_after_scale_down p.last_enf_op p.last_enf_at cooldown now in
      Ensures-if (not within_cost) (defer_for_cost r p) _
        (λ over.
          subst (λ (b : Bool). Ensures (Marked p b) (defer_for_cost r p))
            (over_cost within_cost can over) (defer_for_cost-Marked p fresh))
        (λ within.
          Ensures-if can (restore_now r p) (defer_for_cooldown r p cooldown now)
            (λ free.
              subst (λ (b : Bool). Ensures (Marked p b) (restore_now r p))
                (free_now within_cost can free) (restore_now-Marked p fresh))
            (λ held.
              subst (λ (b : Bool). Ensures (Marked p b) (defer_for_cooldown r p cooldown now))
                (held_now within_cost can within held) (defer_for_cooldown-Marked p cooldown now)))
    where
      over_cost : (b c : Bool) → not b ≡ true → false ≡ (b && not c)
      over_cost b c h = ground arith

      free_now : (b c : Bool) → c ≡ true → false ≡ (b && not c)
      free_now b c h = ground arith

      held_now : (b c : Bool) → not b ≡ false → c ≡ false → true ≡ (b && not c)
      held_now b c h k = ground arith

-- What the condition says where the enforcement is on and the quota was looked at.
said :
    (q : Progress)
    → should_scale_deployments_to_zero q.budget_namespace.spec ≡ true
    → q.quota_evaluated ≡ true
    → ((recovery_condition q).condition_type ≡ "EnforcementRecoveryDeferred")
      × ((recovery_condition q).status ≡ truth q.recovery_deferred)
unfolding recovery_condition
said q on looked = ground arith

held_iff : (b c : Bool) → ((b && not c) ≡ true) ↔ ((b ≡ true) × (c ≡ false))
held_iff b c = ground arith

-- Where enforcement is on, the quota was evaluated and no restore was put off so far, the step that
-- restores or puts the restore off, when it succeeds, leaves EnforcementRecoveryDeferred true
-- exactly where the spend is within the budget and the cooldown runs since a recorded scale-down,
-- and false otherwise: a restore put off for the spend alone leaves it false.
pub recovery_status :
    {F Q S : Type 0} (r : Reconciler F Q S) (p q : Progress) (cooldown : Duration) (now : Time)
    (within_cost : Bool) (w w' : World S)
    → should_scale_deployments_to_zero p.budget_namespace.spec ≡ true
    → p.quota_evaluated ≡ true
    → p.recovery_deferred ≡ false
    → restore_or_defer r p cooldown now within_cost w ≡ (ok q, w')
    → ((recovery_condition q).condition_type ≡ "EnforcementRecoveryDeferred")
      × (((recovery_condition q).status ≡ "True")
          ↔ ((within_cost ≡ true) × CooldownRuns p.last_enf_op p.last_enf_at cooldown now))
      × (((recovery_condition q).status ≡ "True") ⊎ ((recovery_condition q).status ≡ "False"))
recovery_status r p q cooldown now within_cost w w' on looked fresh run =
    let can = can_restore_after_scale_down p.last_enf_op p.last_enf_at cooldown now in
    let (mark, same_looked, same_spec) =
      (restore_or_defer-Marked r p cooldown now within_cost fresh).of_value w w' q run in
    let (named, status) =
      said q (ap should_scale_deployments_to_zero same_spec ∙ on) (same_looked ∙ looked) in
    let cooled = held_back_iff p.last_enf_op p.last_enf_at cooldown now in
    let held = held_iff within_cost can in
    let shown = true_iff q.recovery_deferred in
    (
      named,
      (
        λ e. let (a, b) = held.0 (sym mark ∙ shown.0 (sym status ∙ e)) in (a, cooled.0 b),
        λ (a, b). status ∙ shown.1 (mark ∙ held.1 (a, cooled.1 b)),
      ),
      subst (λ (t : String). (t ≡ "True") ⊎ (t ≡ "False")) (sym status)
          (one_of q.recovery_deferred),
    )
