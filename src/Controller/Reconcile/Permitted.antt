-- ===== src/Controller/Reconcile/Permitted.antt =====
-- Which requests the branches of Reconcile may send.
use costguard_operator.Base.{◌≡◌, ◌⊎◌, Bool, true, false, Option, none, some, ◌==◌, if◌then◌else◌}
use costguard_operator.Go.Duration.{parse_duration}
use costguard_operator.Go.Time.{Time, Duration, add}
use costguard_operator.Api.{BudgetNamespace, BudgetNamespaceSpec}
use costguard_operator.Kube.{Workload}
use costguard_operator.Kube.Action.{
  Call, patch, ensure_namespace, ensure_resource_quota, ensure_limit_range, delete_namespace,
  query_spend, update_status,
}
use costguard_operator.Controller.Reconciler.{Reconciler}
use costguard_operator.Controller.Scale.{scaled_to_zero}
use costguard_operator.Controller.Restore.{restored, restore_on_recovery_enabled}
use costguard_operator.Controller.Cost.{cost_budget_enabled}
use costguard_operator.Controller.Quota.{should_scale_deployments_to_zero}
use costguard_operator.Controller.Ttl.{is_expired, is_deleting}

-- A patch that scales a workload to zero: it is not exempt and has a replica.
abbrev pub Scales : Workload → Workload → Type 0
Scales w w' = scaled_to_zero w ≡ some w'

abbrev pub Restores : Workload → Workload → Type 0
Restores w w' = restored w ≡ some w'

-- The requests that a resource permits, by whether it is expired and due for deletion.
abbrev pub Permits : BudgetNamespaceSpec → Bool → Bool → Call → Type 0
Permits spec expired deleting (ensure_namespace namespace) =
    (namespace ≡ spec.namespace_name) × (expired ≡ false)
Permits spec expired deleting (ensure_resource_quota namespace) =
    (namespace ≡ spec.namespace_name) × (expired ≡ false)
Permits spec expired deleting (ensure_limit_range namespace) =
    (namespace ≡ spec.namespace_name) × (expired ≡ false)
Permits spec expired deleting (delete_namespace namespace) =
    (namespace ≡ spec.namespace_name) × (expired ≡ true) × (deleting ≡ true)
Permits spec expired deleting (patch kind namespace w w') =
    (namespace ≡ spec.namespace_name)
    × (should_scale_deployments_to_zero spec ≡ true)
    × (((expired ≡ false) ⊎ (deleting ≡ false)) × Scales w w'
        ⊎ (expired ≡ false) × (restore_on_recovery_enabled spec ≡ true) × Restores w w')
Permits spec expired deleting (query_spend namespace) =
    (namespace ≡ spec.namespace_name)
    × (expired ≡ false)
    × (should_scale_deployments_to_zero spec ≡ true)
    × (cost_budget_enabled spec ≡ true)
Permits spec expired deleting (update_status bn) = bn.spec ≡ spec

-- The requests but for the status update.
abbrev pub IsNoStatus : Call → Type 0
IsNoStatus (update_status bn) = ⊥
IsNoStatus _ = Unit

-- What the branches may send before the status is written.
abbrev pub PermitsAct : BudgetNamespaceSpec → Bool → Bool → Call → Type 0
PermitsAct spec expired deleting (update_status bn) = ⊥
PermitsAct spec expired deleting call = Permits spec expired deleting call

pub acts_lawfully :
    (spec : BudgetNamespaceSpec) (e d : Bool) (call : Call)
    → PermitsAct spec e d call
    → Permits spec e d call
acts_lawfully spec e d (update_status bn) h = absurd h
acts_lawfully spec e d (ensure_namespace namespace) h = h
acts_lawfully spec e d (ensure_resource_quota namespace) h = h
acts_lawfully spec e d (ensure_limit_range namespace) h = h
acts_lawfully spec e d (delete_namespace namespace) h = h
acts_lawfully spec e d (patch kind namespace w w') h = h
acts_lawfully spec e d (query_spend namespace) h = h

pub acts_without_update :
    (spec : BudgetNamespaceSpec) (e d : Bool) (call : Call)
    → PermitsAct spec e d call
    → IsNoStatus call
acts_without_update spec e d (update_status bn) h = h
acts_without_update spec e d (ensure_namespace namespace) h = tt
acts_without_update spec e d (ensure_resource_quota namespace) h = tt
acts_without_update spec e d (ensure_limit_range namespace) h = tt
acts_without_update spec e d (delete_namespace namespace) h = tt
acts_without_update spec e d (patch kind namespace w w') h = tt
acts_without_update spec e d (query_spend namespace) h = tt

module _ {F Q S : Type 0} (r : Reconciler F Q S) where
  -- A test of the expiry that spec.ttl sets; false where it sets none.
  abbrev pub by_expiry : (Time → Bool) → Time → Option Duration → Bool
  by_expiry test created none = false
  by_expiry test created (some ttl_duration) = test (add created ttl_duration)

  abbrev ttl_test : (Time → Bool) → BudgetNamespace → Bool
  ttl_test test bn =
      if bn.spec.ttl == ""
      then false
      else by_expiry test bn.creation_timestamp (parse_duration r.floats.fraction_of bn.spec.ttl)

  -- The TTL has run out at `now`: creation + ttl <= now.
  unfoldable pub expired_at : BudgetNamespace → Time → Bool
  expired_at bn now = ttl_test (λ expiry. is_expired expiry now) bn

  -- The grace period has run out too: creation + ttl + 10 s <= now.
  unfoldable pub deleting_at : BudgetNamespace → Time → Bool
  deleting_at bn now = ttl_test (λ expiry. is_deleting expiry now) bn
