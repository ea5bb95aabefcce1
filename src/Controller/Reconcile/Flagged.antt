-- ===== src/Controller/Reconcile/Flagged.antt =====
-- What was found of the quota and of the spend stays as it is while the enforcement acts on it.
use costguard_operator.Base.{◌≡◌, ℕ, Bool, true}
use costguard_operator.Go.Time.{Time, Duration}
use costguard_operator.Kube.Action.{Action}
use costguard_operator.Kube.Action.Ensures.{Ensures, ensures_rules}
use costguard_operator.Controller.Reconciler.{Reconciler}
use costguard_operator.Controller.Enforce.{
  Progress, note_scaled, note_restored, scale_down, restore_or_defer, act_on_budget, recover,
  restore_now, defer_for_cost, defer_for_cooldown,
}

-- The quota was looked at, and this is what was found of the quota and of the cost.
abbrev pub Flagged : Bool → Bool → Progress → Type 0
Flagged quota cost p =
    (p.quota_evaluated ≡ true) × (p.quota_at_hard_limit ≡ quota) × (p.cost_over_budget ≡ cost)

module _ {F Q S : Type 0} (r : Reconciler F Q S) (quota cost : Bool) where
  abbrev Flags : Action S Progress → Type 0
  Flags = Ensures (Flagged quota cost)

  note_scaled-Flagged :
      (p : Progress) (n : ℕ) (announce : Action S (Unit {0}))
      → Flagged quota cost p
      → Flags (note_scaled r p n announce)
  unfolding note_scaled
  note_scaled-Flagged p n announce h = search ensures_rules depth 8

  note_restored-Flagged :
      (p : Progress) (n : ℕ) → Flagged quota cost p → Flags (note_restored r p n)
  unfolding note_restored
  note_restored-Flagged p n h = search ensures_rules depth 8

  scale_down-Flagged : (p : Progress) → Flagged quota cost p → Flags (scale_down r p)
  unfolding scale_down
  scale_down-Flagged p h = search (ensures_rules, note_scaled-Flagged)

  restore_or_defer-Flagged :
      (p : Progress) (cooldown : Duration) (now : Time) (within_cost : Bool)
      → Flagged quota cost p
      → Flags (restore_or_defer r p cooldown now within_cost)
  unfolding restore_or_defer restore_now defer_for_cost defer_for_cooldown
  restore_or_defer-Flagged p cooldown now within_cost h =
      search (ensures_rules, note_restored-Flagged) depth 8

  recover-Flagged :
      (p : Progress) (cooldown : Duration) (spend : F) (now : Time)
      → Flagged quota cost p
      → Flags (recover r p cooldown spend now)
  unfolding recover
  recover-Flagged p cooldown spend now h = search (ensures_rules, restore_or_defer-Flagged) depth 8

  pub act_on_budget-Flagged :
      (cooldown : Duration) (now : Time) (x : F × Progress)
      → Flagged quota cost x.1
      → Flags (act_on_budget r cooldown now x)
  unfolding act_on_budget
  act_on_budget-Flagged cooldown now (spend, p) h =
      search (ensures_rules, scale_down-Flagged, recover-Flagged) depth 8
