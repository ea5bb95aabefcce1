-- ===== src/Controller/Restore.antt =====
-- internal/controller/budgetnamespace_enforcement.go: the cooldown after a scale-down, which
-- workloads wait for a restore, and the restore from the saved replica counts. As in Scale, the
-- two loops over kinds are one.
pub mod RoundTrip
pub mod Cooldown
use costguard_operator.Base.{
  ℕ, zero, ◌+◌, String, Bool, true, false, not, List, [], ◌∷◌, Option, none, some, Map, lookup,
  erase, ◌==◌, if◌then◌else◌, ℤ, pos, leb_ℤ, any, is_some,
}
use costguard_operator.Go.Strconv.{parse_int32}
use costguard_operator.Go.Duration.{parse_duration}
use costguard_operator.Go.Time.{Time, Duration, add, before}
use costguard_operator.Api.{BudgetNamespaceSpec}
use costguard_operator.Kube.{Error, wrap, parse_error, Kind, deployment, stateful_set, Workload}
use costguard_operator.Kube.Action.{Action, pure, or_fail, ◌>>=◌, ◌>>◌}
use costguard_operator.Controller.Patching.{list_workloads, patch_items}
use costguard_operator.Controller.Reconciler.{
  Reconciler, pre_scale_replicas_annotation, enforcement_op_scale_to_zero,
  default_enforcement_cooldown,
}
use costguard_operator.Controller.Scale.{is_exempt, replicas_or, is_zero_int, map_or_empty}

unfoldable pub restore_on_recovery_enabled : BudgetNamespaceSpec → Bool
restore_on_recovery_enabled spec = spec.enforcement.restore_on_recovery

-- canRestoreAfterScaleDown
unfoldable pub can_restore_after_scale_down : String → Option Time → Duration → Time → Bool
can_restore_after_scale_down last_op none cooldown now = true
can_restore_after_scale_down last_op (some last_at) cooldown now =
    if not (last_op == enforcement_op_scale_to_zero)
    then true
    else not (before now (add last_at cooldown))

saved_count : Option (Map String) → Option String
saved_count none = none
saved_count (some annotations) = lookup pre_scale_replicas_annotation annotations

-- The test of one round of the loops that look for a workload to restore.
unfoldable pub is_pending : Workload → Bool
unfolding is_exempt saved_count
is_pending w =
    if is_exempt w.template_labels
    then false
    else if is_zero_int (replicas_or (pos 0) w)
    then is_some (saved_count w.annotations)
    else false

-- `prior <= 0`, and a text that is no int32, are passed over.
abbrev positive_count : Option ℤ → Option ℤ
positive_count none = none
positive_count (some n) = if leb_ℤ n (pos 0) then none else some n

unfoldable pub prior_count : Option String → Option ℤ
unfolding parse_int32
prior_count none = none
prior_count (some raw) = positive_count (parse_int32 raw)

abbrev pub erased : Option (Map String) → Option (Map String)
erased none = none
erased (some annotations) = some (erase pre_scale_replicas_annotation annotations)

abbrev with_replicas : Workload → Option ℤ → Option Workload
with_replicas w none = none
with_replicas w (some target) =
    some (record w { replicas = some target; annotations = erased w.annotations })

-- What one round of the loop patches a workload to; `none` where it goes on to the next.
unfoldable pub restored : Workload → Option Workload
unfolding is_exempt
restored w =
    if is_exempt w.template_labels
    then none
    else if is_zero_int (replicas_or (pos 0) w)
    then with_replicas w
        (prior_count (lookup pre_scale_replicas_annotation (map_or_empty w.annotations)))
    else none

abbrev pub restore_context : Kind → String
restore_context deployment = "restore Deployment %q/%s: %w"
restore_context stateful_set = "restore StatefulSet %q/%s: %w"

module _ {F Q S : Type 0} (r : Reconciler F Q S) where
  -- enforcementCooldown
  unfoldable pub enforcement_cooldown : BudgetNamespaceSpec → Action S Duration
  enforcement_cooldown spec =
      let s = spec.enforcement.enforcement_cooldown in
      if s == ""
      then pure default_enforcement_cooldown
      else or_fail (wrap "parse spec.enforcement.enforcementCooldown %q: %w" (parse_error s))
          (parse_duration r.floats.fraction_of s)

  unfoldable pub deployments_pending_restore : String → Action S Bool
  deployments_pending_restore namespace = do
    items ← list_workloads r deployment namespace
    pure (any is_pending items)

  unfoldable pub stateful_sets_pending_restore : String → Action S Bool
  stateful_sets_pending_restore namespace = do
    items ← list_workloads r stateful_set namespace
    pure (any is_pending items)

  unfoldable pub workloads_pending_restore : String → Action S Bool
  workloads_pending_restore namespace = do
    d ← deployments_pending_restore namespace
    if d then pure d else stateful_sets_pending_restore namespace

  -- The loop of restoreDeploymentsFromAnnotation, and that of restoreStatefulSetsFromAnnotation.
  unfoldable pub restore_items : Kind → String → List Workload → Action S ℕ
  restore_items kind namespace items =
      patch_items r restored (restore_context kind) kind namespace 0 items

  unfoldable pub restore_deployments_from_annotation : String → Action S ℕ
  restore_deployments_from_annotation namespace = do
    items ← list_workloads r deployment namespace
    restore_items deployment namespace items

  unfoldable pub restore_stateful_sets_from_annotation : String → Action S ℕ
  restore_stateful_sets_from_annotation namespace = do
    items ← list_workloads r stateful_set namespace
    restore_items stateful_set namespace items

  unfoldable pub restore_scaled_workloads : String → Action S ℕ
  restore_scaled_workloads namespace = do
    n₁ ← restore_deployments_from_annotation namespace
    n₂ ← restore_stateful_sets_from_annotation namespace
    pure (n₁ + n₂)
