-- ===== src/Controller/Ensure.antt =====
-- internal/controller/budgetnamespace_controller.go, Reconcile: the Namespace, the ResourceQuota and
-- the LimitRange of a live BudgetNamespace. The names of resources are corev1's constants.
pub mod Merging
pub mod Desired
pub mod Applied
pub mod Limited
pub mod Converging
pub mod Stored
use costguard_operator.Base.{String, [], ◌∷◌, Option, none, some, Map, copy_into, ℤ}
use costguard_operator.Go.Strconv.{format_int}
use costguard_operator.Api.{
  BudgetNamespaceSpec, BudgetNamespaceQuotaSpec, BudgetNamespaceDefaultsSpec,
}
use costguard_operator.Kube.{
  wrap, api_error, parse_error, panicked, Namespace, ResourceQuota, LimitRange,
}
use costguard_operator.Kube.Action.{
  Action, or_fail, checked, ◌>>=◌, ◌>>◌, send, ensure_namespace, ensure_resource_quota,
  ensure_limit_range,
}
use costguard_operator.Controller.Reconciler.{Reconciler, resource_quota_name, limit_range_name}
use costguard_operator.Controller.Scale.{map_or_empty}

-- `if spec.Labels != nil { make if nil; maps.Copy(…) }`
unfoldable pub merge_map : Option (Map String) → Option (Map String) → Option (Map String)
merge_map none current = current
merge_map (some desired) current = some (copy_into (map_or_empty current) desired)

-- The mutate function of CreateOrPatch.
unfoldable pub merge_namespace : BudgetNamespaceSpec → Namespace → Namespace
unfolding merge_map
merge_namespace spec namespace = record namespace {
  labels = merge_map spec.labels namespace.labels;
  annotations = merge_map spec.annotations namespace.annotations;
}

module _ {Q : Type 0} where
  abbrev pub hard_limits : Q → Q → Q → Q → Q → Map Q
  hard_limits cpu memory storage pvc_count pod_count =
      ("requests.cpu", cpu)
      ∷ ("requests.memory", memory)
      ∷ ("requests.storage", storage)
      ∷ ("persistentvolumeclaims", pvc_count)
      ∷ ("pods", pod_count)
      ∷ []

  -- The mutate function of the ResourceQuota: `resourceQuota.Spec.Hard = …`
  abbrev pub set_hard : Map Q → ResourceQuota Q → ResourceQuota Q
  set_hard hard quota = record quota { hard = hard }

  -- The mutate function of the LimitRange: `limitRange.Spec.Limits = …`
  abbrev pub set_limits : Q → Q → Q → Q → LimitRange Q → LimitRange Q
  set_limits request_cpu request_memory limit_cpu limit_memory limit_range = record limit_range {
    limits =
        record {
          limit_type = "Container";
          default_request = ("cpu", request_cpu) ∷ ("memory", request_memory) ∷ [];
          default_limit = ("cpu", limit_cpu) ∷ ("memory", limit_memory) ∷ [];
        }
        ∷ [];
  }

module _ {F Q S : Type 0} (r : Reconciler F Q S) where
  -- resource.ParseQuantity, its error in context
  unfoldable pub parsed : String → String → Action S Q
  parsed context s = or_fail (wrap context (parse_error s)) (r.quantities.parse_quantity s)

  -- resource.MustParse(fmt.Sprintf("%d", n))
  unfoldable pub must_parse : ℤ → Action S Q
  must_parse n = or_fail panicked (r.quantities.parse_quantity (format_int n))

  unfoldable pub apply_namespace : BudgetNamespaceSpec → Action S (Unit {0})
  apply_namespace spec = do
    sent ←
        send (ensure_namespace spec.namespace_name)
          (r.client.create_or_patch_namespace spec.namespace_name (merge_namespace spec))
    checked (λ e. wrap "ensure namespace %q: %w" (api_error e)) sent

  unfoldable pub apply_resource_quota : String → BudgetNamespaceQuotaSpec → Action S (Unit {0})
  apply_resource_quota namespace quota = do
    cpu ← parsed "parse quota.cpu: %w" quota.cpu
    memory ← parsed "parse quota.memory: %w" quota.memory
    storage ← parsed "parse quota.storage: %w" quota.storage
    pvc_count ← must_parse quota.persistent_volume_claims
    pod_count ← must_parse quota.pods
    sent ← send (ensure_resource_quota namespace) (
        r.client.create_or_update_resource_quota
          (record { namespace = namespace; name = resource_quota_name })
          (set_hard (hard_limits cpu memory storage pvc_count pod_count)))
    checked (λ e. wrap "apply ResourceQuota in namespace %q: %w" (api_error e)) sent

  unfoldable pub apply_limit_range : String → BudgetNamespaceDefaultsSpec → Action S (Unit {0})
  apply_limit_range namespace defaults = do
    request_cpu ← parsed "parse defaults.requestCPU: %w" defaults.request_cpu
    request_memory ← parsed "parse defaults.requestMemory: %w" defaults.request_memory
    limit_cpu ← parsed "parse defaults.limitCPU: %w" defaults.limit_cpu
    limit_memory ← parsed "parse defaults.limitMemory: %w" defaults.limit_memory
    sent ← send (ensure_limit_range namespace) (
        r.client.create_or_update_limit_range
          (record { namespace = namespace; name = limit_range_name })
          (set_limits request_cpu request_memory limit_cpu limit_memory))
    checked (λ e. wrap "apply LimitRange in namespace %q: %w" (api_error e)) sent

  -- The branch `if !expired`, up to the enforcement.
  unfoldable pub ensure_resources : BudgetNamespaceSpec → Action S (Unit {0})
  ensure_resources spec = do
    apply_namespace spec
    apply_resource_quota spec.namespace_name spec.quota
    apply_limit_range spec.namespace_name spec.defaults
