-- ===== src/Controller/Ttl.antt =====
-- internal/controller/budgetnamespace_controller.go, Reconcile: the life of the managed namespace
-- by spec.ttl, and when to look again.
pub mod Laws
use costguard_operator.Base.{
  ℕ, ◌*◌, String, Bool, true, false, not, ◌&&◌, Option, none, some, ◌==◌, if◌then◌else◌, pos, min_ℤ,
}
use costguard_operator.Go.Duration.{second, minute, parse_duration}
use costguard_operator.Go.Time.{Time, Duration, add, before, after, is_zero, sub}
use costguard_operator.Kube.{wrap, parse_error}
use costguard_operator.Kube.Action.{Action, pure, or_fail, ◌>>=◌, sense}
use costguard_operator.Controller.Reconciler.{Reconciler, ttl_delete_grace_period}

-- The local variables that the TTL block sets.
pub record Ttl : Type 0 where
  pub expired : Bool
  pub deleting : Bool
  pub expires_at : Option Time
  pub requeue_after_ttl : Duration

abbrev pub no_ttl : Ttl
no_ttl = record { expired = false; deleting = false; expires_at = none; requeue_after_ttl = pos 0 }

-- expired = !now.Before(expiry)
unfoldable pub is_expired : Time → Time → Bool
is_expired expiry now = not (before now expiry)

-- deleting = expired && !now.Before(expiry.Add(ttlDeleteGracePeriod))
unfoldable pub is_deleting : Time → Time → Bool
unfolding is_expired
is_deleting expiry now =
    is_expired expiry now && not (before now (add expiry ttl_delete_grace_period))

abbrev pub ttl_waiting : Time → Time → Duration → Ttl
ttl_waiting expiry now wait = record {
  expired = is_expired expiry now;
  deleting = is_deleting expiry now;
  expires_at = some expiry;
  requeue_after_ttl = wait;
}

-- The switch that picks the next moment of interest; the zero Time if there is none.
unfoldable pub ttl_target : Time → Time → Time
unfolding is_expired is_deleting
ttl_target expiry now =
    if not (is_expired expiry now)
    then expiry
    else if not (is_deleting expiry now)
    then add expiry ttl_delete_grace_period
    else pos 0

module _ {F Q S : Type 0} (r : Reconciler F Q S) where
  -- time.Until, which reads the clock again
  unfoldable pub until : Time → Action S Duration
  until target = do later ← sense r.client.now; pure (sub target later)

  unfoldable pub ttl_requeue : Time → Time → Action S Duration
  ttl_requeue expiry now =
      if not (is_zero (ttl_target expiry now)) && after (ttl_target expiry now) now
      then until (ttl_target expiry now) >>= (λ d. pure (min_ℤ d (pos (10 * minute))))
      else if is_deleting expiry now
      then pure (pos (10 * second))
      else pure (pos 0)

  unfoldable pub ttl_at : Time → Time → Action S Ttl
  ttl_at expiry now = do wait ← ttl_requeue expiry now; pure (ttl_waiting expiry now wait)

  -- The block `if budgetNamespace.Spec.TTL != "" { … }`
  unfoldable pub ttl_state : String → Time → Time → Action S Ttl
  ttl_state ttl creation_timestamp now =
      if ttl == ""
      then pure no_ttl
      else or_fail (wrap "parse spec.ttl %q: %w" (parse_error ttl))
          (parse_duration r.floats.fraction_of ttl)
        >>= (λ ttl_duration. ttl_at (add creation_timestamp ttl_duration) now)
