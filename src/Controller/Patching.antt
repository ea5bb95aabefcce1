-- ===== src/Controller/Patching.antt =====
-- What the loops of internal/controller/workload_scale.go and budgetnamespace_enforcement.go have in
-- common: list the workloads of one kind, go through them, patch those that a round changes, stop
-- at the first patch that fails. The count that Go returns beside an error is dropped: the only
-- callers ignore it.
pub mod Trace
pub mod Counted
pub mod Store
pub mod Fleet
use costguard_operator.Base.{ℕ, ◌+◌, String, List, [], ◌∷◌, Option, none, some}
use costguard_operator.Kube.{api_error, wrap, Kind, deployment, stateful_set, Workload}
use costguard_operator.Kube.Action.{patch, Action, pure, checked, ◌>>=◌, send, fetch}
use costguard_operator.Controller.Reconciler.{Reconciler}

abbrev pub list_context : Kind → String
list_context deployment = "list Deployments in namespace %q: %w"
list_context stateful_set = "list StatefulSets in namespace %q: %w"

module _ {F Q S : Type 0} (r : Reconciler F Q S) where
  -- c.List(ctx, &list, client.InNamespace(namespace))
  unfoldable pub list_workloads : Kind → String → Action S (List Workload)
  list_workloads kind namespace = do
    found ← fetch (r.client.list_workloads kind namespace)
    checked (λ e. wrap (list_context kind) (api_error e)) found

  -- c.Patch(ctx, modified, MergeFrom(original))
  unfoldable pub patch_workload : String → Kind → String → Workload → Workload → Action S (Unit {0})
  patch_workload context kind namespace original modified = do
    sent ←
        send (patch kind namespace original modified)
          (r.client.patch_workload kind namespace original modified)
    checked (λ e. wrap context (api_error e)) sent

  -- The loop, with `n` workloads patched so far. `change` is one round: what the workload is
  -- patched to, or `none` where the round ends by `continue`.
  unfoldable pub patch_items :
      (Workload → Option Workload) → String → Kind → String → ℕ → List Workload → Action S ℕ
  patch_items change context kind namespace n [] = pure n
  patch_items change context kind namespace n (w ∷ ws) = elim (change w) [
    | none ↦ patch_items change context kind namespace n ws
    | some w' ↦ patch_workload context kind namespace w w' >>= λ _.
        patch_items change context kind namespace (n + 1) ws
  ]
