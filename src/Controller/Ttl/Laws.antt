-- ===== src/Controller/Ttl/Laws.antt =====
-- The phases of a namespace's life, and when the next look at it is due.
use costguard_operator.Base.{
  ◌≡◌, sym, subst, ap, ◌∙◌, min_ℤ, ◌&&◌, ◌↔◌, ◌*◌, Bool, true, false, not, pos, ◌≤ℤ◌, ◌<ℤ◌, arith,
  +ℤ_parts, -ℤ_parts, if◌then◌else◌,
}
use costguard_operator.Go.Duration.{minute, second}
use costguard_operator.Go.Time.{Time, Duration, add, after, is_zero, sub}
use costguard_operator.Kube.{Error, Result, ok}
use costguard_operator.Kube.Action.{World, Action, pure, ◌>>=◌}
use costguard_operator.Kube.Action.Run.{bind_ok}
use costguard_operator.Kube.Action.Ensures.{Ensures, ensures_rules}
use costguard_operator.Controller.Reconciler.{Reconciler, ttl_delete_grace_period}
use costguard_operator.Controller.Ttl.{
  is_expired, is_deleting, ttl_target, until, ttl_requeue, Ttl, ttl_waiting, ttl_at,
}

-- A namespace is expired from the expiry time on, and due for deletion from the end of the grace
-- period after it on, so that one due for deletion is expired; both stay so at every later time.
pub phases :
    (expiry now later : Time)
    → ((is_expired expiry now ≡ true) ↔ (expiry ≤ℤ now))
      × ((is_deleting expiry now ≡ true) ↔ (add expiry ttl_delete_grace_period ≤ℤ now))
      × (is_deleting expiry now ≡ true → is_expired expiry now ≡ true)
      × (now ≤ℤ later → is_expired expiry now ≡ true → is_expired expiry later ≡ true)
      × (now ≤ℤ later → is_deleting expiry now ≡ true → is_deleting expiry later ≡ true)
unfolding is_expired is_deleting
phases expiry now later = ground (arith, +ℤ_parts expiry ttl_delete_grace_period)

module _ {F Q S : Type 0} (r : Reconciler F Q S) where
  -- The block never asks to wait longer than ten minutes.
  pub ttl_requeue-Ensures :
      (expiry now : Time)
      → Ensures (λ (wait : Duration). wait ≤ℤ pos (10 * minute)) (ttl_requeue r expiry now)
  unfolding ttl_requeue until
  ttl_requeue-Ensures expiry now = search (ensures_rules, arith) depth 8

  still_running :
      (expiry now : Time)
      → is_deleting expiry now ≡ false
      → after (ttl_target expiry now) now ≡ true
  unfolding is_deleting is_expired ttl_target
  still_running expiry now due = ground (arith, +ℤ_parts expiry ttl_delete_grace_period)

  capped : Time → Time → Duration
  capped target later = min_ℤ (sub target later) (pos (10 * minute))

  capped_lem :
      (target later : Time)
      → later <ℤ target
      → (pos 0 <ℤ capped target later) × (add later (capped target later) ≤ℤ target)
  unfolding capped sub
  capped_lem target later early =
      ground (arith, -ℤ_parts target later, +ℤ_parts later (capped target later))

  both : {b c : Bool} → b ≡ false → c ≡ true → (not b && c) ≡ true
  both p q = ground arith

  ttl_requeue_running :
      (expiry now later : Time) (w : World S) (s : S)
      → r.client.now w.server ≡ (later, s)
      → is_deleting expiry now ≡ false
      → is_zero (ttl_target expiry now) ≡ false
      → ttl_requeue r expiry now w
        ≡ (ok (capped (ttl_target expiry now) later), record w { server = s })
  unfolding ttl_requeue until capped
  ttl_requeue_running expiry now later w s read due set =
      let t = ttl_target expiry now in
      let m : Action S Duration = until r t >>= (λ d. pure (min_ℤ d (pos (10 * minute)))) in
      let n : Action S Duration =
        if is_deleting expiry now then pure (pos (10 * second)) else pure (pos 0) in
      ap (λ (b : Bool). (if b then m else n) w) (both set (still_running expiry now due))
      ∙ ap
          (λ (q : Time × S).
            let p : Result Error Duration × World S =
              (ok (min_ℤ (sub t q.0) (pos (10 * minute))), record w { server = q.1 }) in
            p)
          read

  -- Before the deletion is due, and where the clock's second reading has not passed the end of the
  -- present phase either, the wait that is asked for is positive and ends no later than the phase.
  -- The end of the phase is not Go's zero time.
  pub wait_in_time :
      (expiry now later : Time) (w : World S) (s : S)
      → r.client.now w.server ≡ (later, s)
      → is_deleting expiry now ≡ false
      → is_zero (ttl_target expiry now) ≡ false
      → later <ℤ ttl_target expiry now
      → (wait : Duration) × (ttl_requeue r expiry now w ≡ (ok wait, record w { server = s }))
        × (pos 0 <ℤ wait)
        × (add later wait ≤ℤ ttl_target expiry now)
  wait_in_time expiry now later w s read due set early =
      let (positive, bounded) = capped_lem (ttl_target expiry now) later early in
      (
        capped (ttl_target expiry now) later,
        ttl_requeue_running expiry now later w s read due set,
        positive,
        bounded,
      )

  capped_late : (target later : Time) → target <ℤ later → capped target later <ℤ pos 0
  unfolding capped sub
  capped_late target later late = ground (arith, -ℤ_parts target later)

  targets_expiry :
      (expiry now : Time) → is_expired expiry now ≡ false → ttl_target expiry now ≡ expiry
  unfolding ttl_target is_expired
  targets_expiry expiry now live = ground arith

  not_due : (expiry now : Time) → is_expired expiry now ≡ false → is_deleting expiry now ≡ false
  unfolding is_deleting is_expired
  not_due expiry now live = ground arith

  -- Where the first reading of the clock finds the namespace live and the second one is past its
  -- expiry, the block calls it live and asks for a wait that is negative. The expiry is not Go's
  -- zero time.
  pub wait_too_late :
      (expiry now later : Time) (w : World S) (s : S)
      → r.client.now w.server ≡ (later, s)
      → is_expired expiry now ≡ false
      → is_zero expiry ≡ false
      → expiry <ℤ later
      → (ttl : Ttl) × (ttl_at r expiry now w ≡ (ok ttl, record w { server = s }))
        × (ttl.expired ≡ false)
        × (ttl.requeue_after_ttl <ℤ pos 0)
  unfolding ttl_at
  wait_too_late expiry now later w s read live set late =
      let target = targets_expiry expiry now live in
      (
        ttl_waiting expiry now (capped (ttl_target expiry now) later),
        bind_ok (ttl_requeue r expiry now) (λ wait. pure (ttl_waiting expiry now wait)) w
            (capped (ttl_target expiry now) later) (record w { server = s })
            (ttl_requeue_running expiry now later w s read (not_due expiry now live)
              (ap is_zero target ∙ set)),
        live,
        subst (λ (t : Time). capped t later <ℤ pos 0) (sym target) (capped_late expiry later late),
      )
