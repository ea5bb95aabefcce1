-- ===== src/Controller/Fleet.antt =====
-- scaleWorkloadsToZero and restoreScaledWorkloads on a server that stores the workloads
-- (internal/controller/workload_scale.go and budgetnamespace_enforcement.go).
pub mod Recovery
use costguard_operator.Base.{
  ℕ, ◌+◌, ◌≡◌, ◌≢◌, refl, sym, subst, ap, ◌∙◌, ◌⊎◌, inl, inr, String, Bool, true, false, List, [],
  ◌∷◌, ◌++◌, map, Option, none, some, ◌==◌, arith, All, ℤ, pos, ◌<ℤ◌,
}
use costguard_operator.Kube.{Error, Result, ok, err, Kind, deployment, stateful_set, Workload}
use costguard_operator.Kube.Server.{WorkloadServer}
use costguard_operator.Kube.Action.{World, Action, pure, ◌>>=◌}
use costguard_operator.Controller.Reconciler.{Reconciler}
use costguard_operator.Controller.Patching.Store.{made, changed, value_or, sweep}
use costguard_operator.Controller.Patching.Fleet.{
  Partly, FleetSwept, OtherNamespaces, Outcomes, both, both_lem,
}
use costguard_operator.Controller.Scale.{
  is_exempt, replicas_or, scale_context, scaled_to_zero, scale_items, scale_deployments_to_zero,
  scale_stateful_sets_to_zero, scale_workloads_to_zero,
}
use costguard_operator.Controller.Scale.Plan.{IsScaled, scaled_to_zero-IsScaled}
use costguard_operator.Controller.Restore.{
  restored, restore_context, restore_items, restore_deployments_from_annotation,
  restore_stateful_sets_from_annotation, restore_scaled_workloads,
}
use costguard_operator.Controller.Restore.RoundTrip.{IsRestored, restored-IsRestored}

scale_names : (w w' : Workload) → scaled_to_zero w ≡ some w' → w'.name ≡ w.name
scale_names w w' e = (scaled_to_zero-IsScaled w w' e).same_name

restore_names : (w w' : Workload) → restored w ≡ some w' → w'.name ≡ w.name
restore_names w w' e = (restored-IsRestored w w' e).same_name

module _ {F Q S : Type 0} (r : Reconciler F Q S) (server : WorkloadServer r.client)
    (namespace : String) where
  -- Scaling refines one step on the stored workloads: a success changes each workload of both kinds
  -- as the loop's round does, and counts those that it changed; a failure, a first part of each
  -- kind; neither touches another namespace. This is on a server that lists what it stores and
  -- patches as told, and where nothing else writes.
  pub scale-refines :
      (x : World S)
      → let (q, z) = scale_workloads_to_zero r namespace x in
        FleetSwept server namespace scaled_to_zero x.server q z.server
        × OtherNamespaces server namespace x.server z.server
  unfolding scale_workloads_to_zero scale_deployments_to_zero scale_stateful_sets_to_zero
      scale_items both sweep
  scale-refines x = both_lem r server scaled_to_zero scale_context namespace scale_names x

  pub restore-refines :
      (x : World S)
      → let (q, z) = restore_scaled_workloads r namespace x in
        FleetSwept server namespace restored x.server q z.server
        × OtherNamespaces server namespace x.server z.server
  unfolding restore_scaled_workloads restore_deployments_from_annotation
      restore_stateful_sets_from_annotation restore_items both sweep
  restore-refines x = both_lem r server restored restore_context namespace restore_names x
