-- ===== src/Controller/Restore/Cooldown.antt =====
-- The cooldown that keeps a restore from following a scale-down too soon.
use costguard_operator.Base.{
  ◌≡◌, refl, ◌↔◌, String, true, false, Option, none, some, ◌==◌, ◌≤ℤ◌, ◌<ℤ◌, arith, +ℤ_parts,
}
use costguard_operator.Go.Time.{Time, Duration, add}
use costguard_operator.Controller.Reconciler.{enforcement_op_scale_to_zero}
use costguard_operator.Controller.Restore.{can_restore_after_scale_down}

-- The last enforcement recorded was a scale-down, and its cooldown runs.
abbrev pub CooldownRuns : String → Option Time → Duration → Time → Type 0
CooldownRuns last_op none cooldown now = ⊥
CooldownRuns last_op (some last_at) cooldown now =
    ((last_op == enforcement_op_scale_to_zero) ≡ true) × (now <ℤ add last_at cooldown)

-- A restore is held back exactly where the last enforcement recorded was a scale to zero, at a
-- recorded time, and the cooldown from that time has not passed.
pub held_back_iff :
    (last_op : String) (last_at : Option Time) (cooldown : Duration) (now : Time)
    → (can_restore_after_scale_down last_op last_at cooldown now ≡ false)
      ↔ CooldownRuns last_op last_at cooldown now
unfolding can_restore_after_scale_down
held_back_iff last_op none cooldown now = ground arith
held_back_iff last_op (some last_at) cooldown now = ground arith

-- Once a restore is allowed it stays allowed until the next enforcement is recorded: with a later
-- time, and with a shorter cooldown.
pub stays_allowed :
    (last_op : String) (last_at : Option Time) (longer shorter : Duration) (now later : Time)
    → shorter ≤ℤ longer
    → now ≤ℤ later
    → can_restore_after_scale_down last_op last_at longer now ≡ true
    → can_restore_after_scale_down last_op last_at shorter later ≡ true
unfolding can_restore_after_scale_down
stays_allowed last_op none longer shorter now later h k allowed = refl
stays_allowed last_op (some last_at) longer shorter now later h k allowed =
    ground (arith, +ℤ_parts last_at longer, +ℤ_parts last_at shorter)
