-- ===== src/Controller/Ensure/Desired.antt =====
-- What a live BudgetNamespace wants to be stored.
use costguard_operator.Base.{◌≡◌, refl, ap, ◌∙◌, String, Bool, true, ◌&&◌, some, Map, ◌==◌, eq_refl}
use costguard_operator.Go.Strconv.{format_int}
use costguard_operator.Api.{BudgetNamespaceSpec}
use costguard_operator.Kube.{Quantities, Namespace, LimitRange, NamespacedName}
use costguard_operator.Kube.Resources.{
  Stored, same_name, new_namespace, new_quota, new_limit_range, with_namespace, with_quota,
  with_limit_range, upsert-upsert,
}
use costguard_operator.Controller.Reconciler.{resource_quota_name, limit_range_name}
use costguard_operator.Controller.Ensure.{merge_namespace, hard_limits, set_hard, set_limits}
use costguard_operator.Controller.Ensure.Merging.{DesiredDistinct, merge_map-merge_map}

-- The quantities that a spec writes as texts and numbers.
pub record Amounts (Q : Type 0) : Type 0 where
  pub cpu : Q
  pub memory : Q
  pub storage : Q
  pub pvc_count : Q
  pub pod_count : Q
  pub request_cpu : Q
  pub request_memory : Q
  pub limit_cpu : Q
  pub limit_memory : Q

abbrev pub quota_key : String → NamespacedName
quota_key namespace = record { namespace = namespace; name = resource_quota_name }

abbrev pub range_key : String → NamespacedName
range_key namespace = record { namespace = namespace; name = limit_range_name }

merged_twice :
    (spec : BudgetNamespaceSpec) (namespace : Namespace)
    → DesiredDistinct spec.labels
    → DesiredDistinct spec.annotations
    → merge_namespace spec (merge_namespace spec namespace) ≡ merge_namespace spec namespace
unfolding merge_namespace
merged_twice spec namespace labels annotations i = record {
  labels = merge_map-merge_map spec.labels namespace.labels labels i;
  annotations = merge_map-merge_map spec.annotations namespace.annotations annotations i;
}

same_self : (key : NamespacedName) → same_name key key ≡ true
same_self key =
    ap (λ (b : Bool). b && key.name == key.name) (eq_refl key.namespace) ∙ eq_refl key.name

module _ {Q : Type 0} where
  pub record Parses (quantities : Quantities Q) (spec : BudgetNamespaceSpec) (amounts : Amounts Q)
      : Type 0 where
    pub cpu : quantities.parse_quantity spec.quota.cpu ≡ some amounts.cpu
    pub memory : quantities.parse_quantity spec.quota.memory ≡ some amounts.memory
    pub storage : quantities.parse_quantity spec.quota.storage ≡ some amounts.storage
    pub pvc_count :
        quantities.parse_quantity (format_int spec.quota.persistent_volume_claims)
        ≡ some amounts.pvc_count
    pub pod_count : quantities.parse_quantity (format_int spec.quota.pods) ≡ some amounts.pod_count
    pub request_cpu : quantities.parse_quantity spec.defaults.request_cpu ≡ some amounts.request_cpu
    pub request_memory :
        quantities.parse_quantity spec.defaults.request_memory ≡ some amounts.request_memory
    pub limit_cpu : quantities.parse_quantity spec.defaults.limit_cpu ≡ some amounts.limit_cpu
    pub limit_memory :
        quantities.parse_quantity spec.defaults.limit_memory ≡ some amounts.limit_memory

  abbrev pub desired_hard : Amounts Q → Map Q
  desired_hard a = hard_limits a.cpu a.memory a.storage a.pvc_count a.pod_count

  abbrev pub desired_range : Amounts Q → LimitRange Q → LimitRange Q
  desired_range a = set_limits a.request_cpu a.request_memory a.limit_cpu a.limit_memory

  -- The objects after the Namespace, its ResourceQuota and its LimitRange are ensured.
  unfoldable pub ensured : BudgetNamespaceSpec → Amounts Q → Stored Q → Stored Q
  ensured spec a s = with_limit_range (range_key spec.namespace_name) (desired_range a) (
      with_quota (quota_key spec.namespace_name) (set_hard (desired_hard a))
        (with_namespace spec.namespace_name (merge_namespace spec) s))

  pub ensured-ensured :
      (spec : BudgetNamespaceSpec) (a : Amounts Q) (s : Stored Q)
      → DesiredDistinct spec.labels
      → DesiredDistinct spec.annotations
      → ensured spec a (ensured spec a s) ≡ ensured spec a s
  unfolding ensured
  ensured-ensured spec a s labels annotations i = record {
    namespaces =
        upsert-upsert (λ x y. x == y) spec.namespace_name new_namespace (merge_namespace spec)
          s.namespaces (eq_refl spec.namespace_name) (λ n. merged_twice spec n labels annotations)
          i;
    quotas =
        upsert-upsert same_name (quota_key spec.namespace_name)
          (new_quota (quota_key spec.namespace_name)) (set_hard (desired_hard a)) s.quotas
          (same_self (quota_key spec.namespace_name)) (λ q. refl) i;
    limit_ranges =
        upsert-upsert same_name (range_key spec.namespace_name) new_limit_range (desired_range a)
          s.limit_ranges (same_self (range_key spec.namespace_name)) (λ r. refl) i;
  }
