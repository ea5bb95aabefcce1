-- ===== src/Examples/Timing.antt =====
-- The quota check, the cooldown and the life of the namespace by the clock.
use costguard_operator.Base.{
  ◌≡◌, refl, ◌↔◌, true, false, none, some, pos, ◌≤ℤ◌, ◌<ℤ◌, ◌+ℤ◌, ◌+◌, arith,
}
use costguard_operator.Go.Time.{Time, Duration, add, is_zero}
use costguard_operator.Go.Duration.{second, minute, hour}
use costguard_operator.Kube.{ok}
use costguard_operator.Controller.Reconciler.{ttl_delete_grace_period, enforcement_poll_interval}
use costguard_operator.Controller.Quota.{
  quota_used_at_or_over_hard, should_scale_deployments_to_zero,
}
use costguard_operator.Controller.Quota.Laws.{LimitReached, at_limit_iff}
use costguard_operator.Controller.Ttl.{
  Ttl, is_expired, is_deleting, ttl_target, ttl_requeue, ttl_at,
}
use costguard_operator.Controller.Ttl.Laws.{phases, wait_in_time, wait_too_late}
use costguard_operator.Controller.Restore.{can_restore_after_scale_down}
use costguard_operator.Controller.Restore.Cooldown.{CooldownRuns, held_back_iff}
use costguard_operator.Controller.Reconcile.{requeue_result}
use costguard_operator.Controller.Reconcile.Requeue.{polled}
use costguard_operator.Examples.Cluster.{
  Cluster, reconciler, spec, resource_quota, cluster, at_cluster,
}

at_limit_iff_example :
    (quota_used_at_or_over_hard reconciler.quantities resource_quota ≡ true
      → LimitReached reconciler.quantities resource_quota)
    × (LimitReached reconciler.quantities resource_quota
        → quota_used_at_or_over_hard reconciler.quantities resource_quota ≡ true)
at_limit_iff_example = at_limit_iff reconciler.quantities resource_quota

held_back_iff_example :
    (can_restore_after_scale_down "ScaleToZero" (some (pos 5)) (pos 10) (pos 7) ≡ false)
    ↔ CooldownRuns "ScaleToZero" (some (pos 5)) (pos 10) (pos 7)
held_back_iff_example = held_back_iff "ScaleToZero" (some (pos 5)) (pos 10) (pos 7)

allowed_then : can_restore_after_scale_down "ScaleToZero" (some (pos 5)) (pos 10) (pos 15) ≡ true
unfolding can_restore_after_scale_down ◌+ℤ◌
allowed_then = refl

phases_example :
    ((is_expired (pos 100) (pos 150) ≡ true) ↔ (pos 100 ≤ℤ pos 150))
    × ((is_deleting (pos 100) (pos 150) ≡ true)
        ↔ (add (pos 100) ttl_delete_grace_period ≤ℤ pos 150))
    × (is_deleting (pos 100) (pos 150) ≡ true → is_expired (pos 100) (pos 150) ≡ true)
    × (pos 150 ≤ℤ pos 200
        → is_expired (pos 100) (pos 150) ≡ true
        → is_expired (pos 100) (pos 200) ≡ true)
    × (pos 150 ≤ℤ pos 200
        → is_deleting (pos 100) (pos 150) ≡ true
        → is_deleting (pos 100) (pos 200) ≡ true)
phases_example = phases (pos 100) (pos 150) (pos 200)

-- An expiry one hour after the clock of the cluster.
abbrev expiry : Time
expiry = pos (2000 + hour)

abbrev next_reading : Cluster
next_reading = record cluster { clock = pos 2000 +ℤ pos second }

not_due : is_deleting expiry (pos 1000) ≡ false
unfolding is_deleting is_expired ◌+ℤ◌
not_due = refl

target_set : is_zero (ttl_target expiry (pos 1000)) ≡ false
unfolding ttl_target is_deleting is_expired ◌+ℤ◌
target_set = refl

not_reached : pos 2000 <ℤ ttl_target expiry (pos 1000)
unfolding ttl_target is_deleting is_expired
not_reached = omega arith

wait_in_time_example :
    (wait : Duration) × (ttl_requeue reconciler expiry (pos 1000) (at_cluster cluster)
      ≡ (ok wait, at_cluster next_reading))
    × (pos 0 <ℤ wait)
    × (add (pos 2000) wait ≤ℤ ttl_target expiry (pos 1000))
wait_in_time_example =
    wait_in_time reconciler expiry (pos 1000) (pos 2000) (at_cluster cluster) next_reading refl
      not_due target_set not_reached

still_live : is_expired (pos 1500) (pos 1000) ≡ false
unfolding is_expired
still_live = refl

wait_too_late_example :
    (ttl : Ttl) × (ttl_at reconciler (pos 1500) (pos 1000) (at_cluster cluster)
      ≡ (ok ttl, at_cluster next_reading))
    × (ttl.expired ≡ false)
    × (ttl.requeue_after_ttl <ℤ pos 0)
wait_too_late_example =
    wait_too_late reconciler (pos 1500) (pos 1000) (pos 2000) (at_cluster cluster) next_reading refl
      still_live refl (omega arith)

enforced : should_scale_deployments_to_zero spec ≡ true
unfolding should_scale_deployments_to_zero
enforced = refl

abbrev pub live : Duration → Ttl
live wait = record {
  expired = false;
  deleting = false;
  expires_at = none;
  requeue_after_ttl = wait;
}

polled_example :
    (pos 0 <ℤ (requeue_result spec (live (pos minute))).requeue_after)
    × ((requeue_result spec (live (pos minute))).requeue_after ≤ℤ enforcement_poll_interval)
    × (pos 0 <ℤ pos minute → (requeue_result spec (live (pos minute))).requeue_after ≤ℤ pos minute)
polled_example = polled spec (live (pos minute)) enforced refl (omega arith)
