-- ===== src/Controller/Reconcile/Requeue.antt =====
-- When Reconcile asks to be run again.
use costguard_operator.Base.{◌≡◌, true, false, pos, ◌≤ℤ◌, ◌<ℤ◌, arith}
use costguard_operator.Api.{BudgetNamespaceSpec}
use costguard_operator.Controller.Reconciler.{enforcement_poll_interval}
use costguard_operator.Controller.Quota.{should_scale_deployments_to_zero}
use costguard_operator.Controller.Ttl.{Ttl}
use costguard_operator.Controller.Reconcile.{no_requeue, requeue_result}

-- While enforcement is on and the TTL has not run out, and the TTL's own wait is not negative, the
-- next run is asked for within the poll interval, and no later than the TTL's wait where that is
-- positive.
pub polled :
    (spec : BudgetNamespaceSpec) (ttl : Ttl)
    → should_scale_deployments_to_zero spec ≡ true
    → ttl.expired ≡ false
    → pos 0 ≤ℤ ttl.requeue_after_ttl
    → (pos 0 <ℤ (requeue_result spec ttl).requeue_after)
      × ((requeue_result spec ttl).requeue_after ≤ℤ enforcement_poll_interval)
      × (pos 0 <ℤ ttl.requeue_after_ttl
          → (requeue_result spec ttl).requeue_after ≤ℤ ttl.requeue_after_ttl)
unfolding requeue_result
polled spec ttl on live wait = ground arith

-- Where the TTL's wait is negative, which a clock that passes the expiry between the two readings
-- gives, no next run is asked for, also with the enforcement on.
pub not_polled :
    (spec : BudgetNamespaceSpec) (ttl : Ttl)
    → ttl.requeue_after_ttl <ℤ pos 0
    → requeue_result spec ttl ≡ no_requeue
unfolding requeue_result
not_polled spec ttl wait = ground arith
