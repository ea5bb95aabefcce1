-- ===== src/Controller/Fleet/Recovery.antt =====
-- A namespace after a scale-down, after two, and after a restore.
use costguard_operator.Base.{
  ℕ, ◌+◌, ◌≡◌, ◌≢◌, refl, sym, subst, ap, ◌∙◌, ◌⊎◌, inl, inr, String, true, List, [], ◌∷◌, map,
  none, some, Option-cases, arith, All, ℤ, pos, ◌<ℤ◌, ◌≤ℤ◌,
}
use mathlib.Core.Path.{ap₂}
use costguard_operator.Go.Strconv.RoundTrip.{IsInt32}
use costguard_operator.Kube.{Error, Result, ok, Kind, deployment, stateful_set, Workload}
use costguard_operator.Kube.Server.{WorkloadServer}
use costguard_operator.Kube.Action.{World}
use costguard_operator.Controller.Reconciler.{Reconciler, pre_scale_replicas_annotation}
use costguard_operator.Controller.Patching.Store.{made, changed, value_or}
use costguard_operator.Controller.Patching.Fleet.{FleetSwept, OtherNamespaces}
use costguard_operator.Controller.Fleet.{scale-refines, restore-refines}
use costguard_operator.Controller.Scale.{
  is_exempt, replicas_or, scaled_to_zero, scale_workloads_to_zero,
}
use costguard_operator.Controller.Scale.Plan.{annotation, left_alone_iff, scaled_to_zero-IsScaled}
use costguard_operator.Controller.Restore.{restored, restore_scaled_workloads}
use costguard_operator.Controller.Restore.RoundTrip.{
  restored-IsRestored, restored-scaled_to_zero, prior_count-none,
}

-- Exempt, or without a replica.
abbrev pub Rests : Workload → Type 0
Rests w = (is_exempt w.template_labels ≡ true) ⊎ (w.replicas ≡ some (pos 0))

made-Rests : (w : Workload) → Rests (made scaled_to_zero w)
made-Rests w = elim (Option-cases (scaled_to_zero w)) [
  | inl idle ↦ subst Rests (sym (ap (value_or w) idle)) ((left_alone_iff w).0 idle)
  | inr (w', e) ↦
      subst Rests (sym (ap (value_or w) e)) (inr (scaled_to_zero-IsScaled w w' e).stopped)
]

made-idle : (w : Workload) → scaled_to_zero (made scaled_to_zero w) ≡ none
made-idle w = (left_alone_iff (made scaled_to_zero w)).1 (made-Rests w)

All-made : (ws : List Workload) → All Rests (map (made scaled_to_zero) ws)
All-made [] = tt
All-made (w ∷ ws) = (made-Rests w, All-made ws)

changed-made : (ws : List Workload) → changed scaled_to_zero (map (made scaled_to_zero) ws) ≡ 0
changed-made [] = refl
changed-made (w ∷ ws) = ground (arith, made-idle w, changed-made ws)

made-made :
    (ws : List Workload)
    → map (made scaled_to_zero) (map (made scaled_to_zero) ws) ≡ map (made scaled_to_zero) ws
made-made [] = refl
made-made (w ∷ ws) =
    ap₂ (λ (v : Workload) (vs : List Workload). v ∷ vs)
      (ap (value_or (made scaled_to_zero w)) (made-idle w)) (made-made ws)

-- A count that a restore can bring back: none is saved from before, and it is an int32 that is not
-- negative.
pub record Restorable (w : Workload) : Type 0 where
  pub fresh : annotation pre_scale_replicas_annotation w ≡ none
  pub fits : IsInt32 (replicas_or (pos 1) w)
  pub not_negative : pos 0 ≤ℤ replicas_or (pos 1) w

-- As far as the operator writes, the same workload.
pub record Same (w v : Workload) : Type 0 where
  pub same_name : v.name ≡ w.name
  pub same_labels : v.template_labels ≡ w.template_labels
  pub same_count : replicas_or (pos 1) v ≡ replicas_or (pos 1) w
  pub same_annotations : (key : String) → annotation key v ≡ annotation key w

abbrev recovered : Workload → Workload
recovered w = made restored (made scaled_to_zero w)

idle_stays : (w : Workload) → Rests w → Restorable w → restored w ≡ none
unfolding restored
idle_stays w rests x = ground (arith, x.fresh, prior_count-none)

was_positive :
    (w : Workload)
    → w.replicas ≢ some (pos 0)
    → pos 0 ≤ℤ replicas_or (pos 1) w
    → pos 0 <ℤ replicas_or (pos 1) w
was_positive w running h = ground arith

counted : (w v : Workload) (n : ℤ) → v.replicas ≡ some n → replicas_or (pos 1) v ≡ n
counted w v n e = ground arith

recovered-Same : (w : Workload) → Restorable w → Same w (recovered w)
recovered-Same w x = elim (Option-cases (scaled_to_zero w)) [
  | inl idle ↦
      let stays = idle_stays w ((left_alone_iff w).0 idle) x in
      subst (Same w) (sym (ap (made restored) (ap (value_or w) idle) ∙ ap (value_or w) stays))
        (record {
          same_name = refl;
          same_labels = refl;
          same_count = refl;
          same_annotations = λ key. refl;
        })
  | inr (w', e) ↦
      let scaled = scaled_to_zero-IsScaled w w' e in
      let (w'', back, count, name, annotations) =
        restored-scaled_to_zero w w' e x.fresh x.fits
          (was_positive w scaled.was_running x.not_negative) in
      subst (Same w) (sym (ap (made restored) (ap (value_or w) e) ∙ ap (value_or w') back))
        (record {
          same_name = name;
          same_labels = (restored-IsRestored w' w'' back).same_labels ∙ scaled.same_labels;
          same_count = counted w w'' (replicas_or (pos 1) w) count;
          same_annotations = annotations;
        })
]

-- Workload by workload, in order: one that can be restored is the same again.
abbrev pub AllRecovered : List Workload → List Workload → Type 0
AllRecovered [] [] = Unit
AllRecovered (w ∷ ws) (v ∷ vs) = (Restorable w → Same w v) × AllRecovered ws vs
AllRecovered _ _ = ⊥

AllRecovered-map :
    (ws : List Workload) → AllRecovered ws (map (made restored) (map (made scaled_to_zero) ws))
AllRecovered-map [] = tt
AllRecovered-map (w ∷ ws) = (recovered-Same w, AllRecovered-map ws)

module _ {F Q S : Type 0} (r : Reconciler F Q S) (server : WorkloadServer r.client)
    (namespace : String) where
  swept_scale :
      (x z : World S) (n : ℕ)
      → scale_workloads_to_zero r namespace x ≡ (ok n, z)
      → FleetSwept server namespace scaled_to_zero x.server (ok n) z.server
  swept_scale x z n e =
      (subst
        (λ (p : Result Error ℕ × World S).
          FleetSwept server namespace scaled_to_zero x.server p.0 p.1.server
          × OtherNamespaces server namespace x.server p.1.server)
        e (scale-refines r server namespace x)).0

  swept_restore :
      (x z : World S) (n : ℕ)
      → restore_scaled_workloads r namespace x ≡ (ok n, z)
      → FleetSwept server namespace restored x.server (ok n) z.server
  swept_restore x z n e =
      (subst
        (λ (p : Result Error ℕ × World S).
          FleetSwept server namespace restored x.server p.0 p.1.server
          × OtherNamespaces server namespace x.server p.1.server)
        e (restore-refines r server namespace x)).0

  -- After a scale-down that succeeds, every workload of the namespace is exempt or has no replica;
  -- a second one that succeeds patches none and leaves them as they are. This is on a server that
  -- lists what it stores and patches as told, and where nothing else writes.
  pub scaled_and_settled :
      (x y z : World S) (n m : ℕ)
      → scale_workloads_to_zero r namespace x ≡ (ok n, y)
      → scale_workloads_to_zero r namespace y ≡ (ok m, z)
      → ((kind : Kind) → All Rests (server.stored y.server kind namespace))
        × (m ≡ 0)
        × ((kind : Kind)
            → server.stored z.server kind namespace ≡ server.stored y.server kind namespace)
  scaled_and_settled x y z n m first second =
      let (now, _) = swept_scale x y n first in
      let (then_, count) = swept_scale y z m second in
      (
        λ kind.
            subst (All Rests) (sym (now kind)) (All-made (server.stored x.server kind namespace)),
        none_left _ _ _ _ m count (now deployment) (now stateful_set),
        λ kind.
            then_ kind ∙ ap (map (made scaled_to_zero)) (now kind) ∙ made-made _ ∙ sym (now kind),
      )
    where
      none_left :
          (a b c d : List Workload) (k : ℕ)
          → k ≡ changed scaled_to_zero a + changed scaled_to_zero b
          → a ≡ map (made scaled_to_zero) c
          → b ≡ map (made scaled_to_zero) d
          → k ≡ 0
      none_left a b c d k h p q = omega (
        arith,
        h,
        ap (changed scaled_to_zero) p,
        ap (changed scaled_to_zero) q,
        changed-made c,
        changed-made d,
      )

  -- A scale-down and then a restore, both of which succeed, bring back every workload of the
  -- namespace, in its place, that had an int32 count which is not negative and no count saved: its
  -- name, labels, count and annotations are those that it had. This is on a server that lists what
  -- it stores and patches as told, and where nothing else writes.
  pub restore-after-scale :
      (x y z : World S) (n m : ℕ)
      → scale_workloads_to_zero r namespace x ≡ (ok n, y)
      → restore_scaled_workloads r namespace y ≡ (ok m, z)
      → (kind : Kind)
      → AllRecovered (server.stored x.server kind namespace) (server.stored z.server kind namespace)
  restore-after-scale x y z n m scaled back kind =
      let (now, _) = swept_scale x y n scaled in
      let (then_, _) = swept_restore y z m back in
      subst (AllRecovered (server.stored x.server kind namespace))
        (sym (then_ kind ∙ ap (map (made restored)) (now kind)))
        (AllRecovered-map (server.stored x.server kind namespace))
