-- ===== src/Controller/Reconcile/Emissions.antt =====
-- The requests that the parts of Reconcile send: those of the scaling and restoring loops, and none
-- by the parts that only read, compute and emit events.
use costguard_operator.Base.{String, ◌≡◌, some, ℕ, List}
use costguard_operator.Api.{BudgetNamespaceSpec}
use costguard_operator.Kube.{EventMessage, failure, Kind, deployment, stateful_set, Workload}
use costguard_operator.Kube.Action.{Call, patch, Action}
use costguard_operator.Kube.Action.Emits.{
  Emits, Grows, emits_rules, Emits-bind, Emits-bind_ensured, Emits-pure, Emits-on_error, Emits-emit,
}
use costguard_operator.Controller.Reconciler.{Reconciler, record_normal, record_warning}
use costguard_operator.Controller.Patching.Trace.{patch_items-Emits, list_workloads-Emits}
use costguard_operator.Controller.Scale.{
  scaled_to_zero, scale_items, scale_deployments_to_zero, scale_stateful_sets_to_zero,
  scale_workloads_to_zero,
}
use costguard_operator.Controller.Restore.{
  restored, restore_items, restore_deployments_from_annotation,
  restore_stateful_sets_from_annotation, restore_scaled_workloads, workloads_pending_restore,
  deployments_pending_restore, stateful_sets_pending_restore, enforcement_cooldown,
}
use costguard_operator.Controller.Enforce.{Progress, note_scaled, note_restored, warn}

module _ {F Q S : Type 0} (r : Reconciler F Q S) (P : Call → Type 0) where
  pub record_normal-Emits :
      (reason : String) (m : EventMessage) → Emits P (record_normal r reason m)
  unfolding record_normal
  record_normal-Emits reason m = search emits_rules

  pub record_warning-Emits :
      (reason : String) (m : EventMessage) → Emits P (record_warning r reason m)
  unfolding record_warning
  record_warning-Emits reason m = search emits_rules

  pub warn-Emits :
      {A : Type 0} (reason : String) (m : Action S A) → Emits P m → Emits P (warn r reason m)
  unfolding warn
  warn-Emits reason m h =
      Emits-on_error (λ e. record_warning r reason (failure e)) m h
        (λ e. record_warning-Emits reason (failure e))

  pub ruleset base_rules =
      (emits_rules, record_normal-Emits, record_warning-Emits, list_workloads-Emits, warn-Emits)

  scale_items-Emits :
      (kind : Kind) (namespace : String) (ws : List Workload)
      → ((w w' : Workload) → scaled_to_zero w ≡ some w' → P (patch kind namespace w w'))
      → Emits P (scale_items r kind namespace ws)
  unfolding scale_items
  scale_items-Emits kind namespace ws h =
      patch_items-Emits r scaled_to_zero _ kind namespace P h 0 ws

  restore_items-Emits :
      (kind : Kind) (namespace : String) (ws : List Workload)
      → ((w w' : Workload) → restored w ≡ some w' → P (patch kind namespace w w'))
      → Emits P (restore_items r kind namespace ws)
  unfolding restore_items
  restore_items-Emits kind namespace ws h = patch_items-Emits r restored _ kind namespace P h 0 ws

  pub scale_workloads_to_zero-Emits :
      (namespace : String)
      → ((kind : Kind) (w w' : Workload)
          → scaled_to_zero w ≡ some w'
          → P (patch kind namespace w w'))
      → Emits P (scale_workloads_to_zero r namespace)
  unfolding scale_workloads_to_zero scale_deployments_to_zero scale_stateful_sets_to_zero
  scale_workloads_to_zero-Emits namespace h =
      search (base_rules, h deployment, h stateful_set, scale_items-Emits) depth 8

  pub restore_scaled_workloads-Emits :
      (namespace : String)
      → ((kind : Kind) (w w' : Workload) → restored w ≡ some w' → P (patch kind namespace w w'))
      → Emits P (restore_scaled_workloads r namespace)
  unfolding restore_scaled_workloads restore_deployments_from_annotation
      restore_stateful_sets_from_annotation
  restore_scaled_workloads-Emits namespace h =
      search (base_rules, h deployment, h stateful_set, restore_items-Emits) depth 8

  pub workloads_pending_restore-Emits :
      (namespace : String) → Emits P (workloads_pending_restore r namespace)
  unfolding workloads_pending_restore deployments_pending_restore stateful_sets_pending_restore
  workloads_pending_restore-Emits namespace = search base_rules depth 8

  pub enforcement_cooldown-Emits :
      (spec : BudgetNamespaceSpec) → Emits P (enforcement_cooldown r spec)
  unfolding enforcement_cooldown
  enforcement_cooldown-Emits spec = search base_rules depth 8

  pub note_scaled-Emits :
      (p : Progress) (n : ℕ) (announce : Action S (Unit {0}))
      → Emits P announce
      → Emits P (note_scaled r p n announce)
  unfolding note_scaled
  note_scaled-Emits p n announce h = search base_rules depth 8

  pub note_restored-Emits : (p : Progress) (n : ℕ) → Emits P (note_restored r p n)
  unfolding note_restored
  note_restored-Emits p n = search base_rules depth 8
