-- ===== src/Controller/Scale.antt =====
-- internal/controller/workload_scale.go: scaling the workloads of a namespace to zero. The loops
-- over Deployments and over StatefulSets are the same text but for the type, and are one loop over
-- a `Kind` here.
pub mod Plan
use costguard_operator.Base.{
  ℕ, zero, ◌+◌, String, Bool, true, false, ◌&&◌, List, [], ◌∷◌, Option, none, some, Map, lookup,
  insert, ◌==◌, if◌then◌else◌, ℤ, pos, leb_ℤ, is_some,
}
use costguard_operator.Go.Strconv.{format_int}
use costguard_operator.Kube.{Error, api_error, wrap, Kind, deployment, stateful_set, Workload}
use costguard_operator.Kube.Action.{Call, patch, Action, pure, checked, ◌>>=◌, send, fetch}
use costguard_operator.Controller.Patching.{list_workloads, patch_items}
use costguard_operator.Controller.Reconciler.{
  Reconciler, costguard_exempt_label, costguard_exempt_label_value, pre_scale_replicas_annotation,
}

abbrev is_value : String → Option String → Bool
is_value value none = false
is_value value (some v) = v == value

-- labels != nil && labels[costguardExemptLabel] == costguardExemptLabelValue
unfoldable pub is_exempt : Option (Map String) → Bool
is_exempt none = false
is_exempt (some labels) =
    is_value costguard_exempt_label_value (lookup costguard_exempt_label labels)

-- The replica count, with a default for a nil pointer.
abbrev pub replicas_or : ℤ → Workload → ℤ
replicas_or n w = elim w.replicas [ none ↦ n | some m ↦ m ]

abbrev pub is_zero_int : ℤ → Bool
is_zero_int n = leb_ℤ n (pos 0) && leb_ℤ (pos 0) n

abbrev pub map_or_empty : Option (Map String) → Map String
map_or_empty none = []
map_or_empty (some m) = m

-- The annotations with the replica count saved, unless one is saved already.
unfoldable pub save_replicas : ℤ → Map String → Map String
save_replicas n annotations =
    if is_some (lookup pre_scale_replicas_annotation annotations)
    then annotations
    else insert pre_scale_replicas_annotation (format_int n) annotations

-- What one round of the loop patches a workload to; `none` where it goes on to the next.
unfoldable pub scaled_to_zero : Workload → Option Workload
unfolding is_exempt save_replicas
scaled_to_zero w =
    if is_exempt w.template_labels
    then none
    else if is_zero_int (replicas_or (pos 1) w)
    then none
    else some (record w {
      replicas = some (pos 0);
      annotations = some (save_replicas (replicas_or (pos 1) w) (map_or_empty w.annotations));
    })

abbrev pub scale_context : Kind → String
scale_context deployment = "scale Deployment %q/%s to zero: %w"
scale_context stateful_set = "scale StatefulSet %q/%s to zero: %w"

module _ {F Q S : Type 0} (r : Reconciler F Q S) where
  -- The loop of scaleDeploymentsToZero, and that of scaleStatefulSetsToZero.
  unfoldable pub scale_items : Kind → String → List Workload → Action S ℕ
  scale_items kind namespace items =
      patch_items r scaled_to_zero (scale_context kind) kind namespace 0 items

  unfoldable pub scale_deployments_to_zero : String → Action S ℕ
  scale_deployments_to_zero namespace = do
    items ← list_workloads r deployment namespace
    scale_items deployment namespace items

  unfoldable pub scale_stateful_sets_to_zero : String → Action S ℕ
  scale_stateful_sets_to_zero namespace = do
    items ← list_workloads r stateful_set namespace
    scale_items stateful_set namespace items

  unfoldable pub scale_workloads_to_zero : String → Action S ℕ
  scale_workloads_to_zero namespace = do
    n₁ ← scale_deployments_to_zero namespace
    n₂ ← scale_stateful_sets_to_zero namespace
    pure (n₁ + n₂)
