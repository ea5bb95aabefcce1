-- ===== src/Controller/Watches.antt =====
-- internal/controller/budgetnamespace_watches.go, and the predicate of SetupWithManager: which
-- BudgetNamespaces are reconciled when a ResourceQuota changes. An object that is no ResourceQuota
-- is `none`.
pub mod Laws
use costguard_operator.Base.{
  String, Bool, true, false, not, List, [], ◌∷◌, Option, none, some, ◌==◌, if◌then◌else◌,
}
use costguard_operator.Api.{BudgetNamespace}
use costguard_operator.Kube.{Result, ok, err, ApiError, ResourceQuota, NamespacedName}
use costguard_operator.Kube.Action.{Action, pure, ◌>>=◌, fetch}
use costguard_operator.Controller.Reconciler.{Reconciler, resource_quota_name}

-- The predicate of Watches.
unfoldable pub is_watched : {Q : Type 0} → Option (ResourceQuota Q) → Bool
is_watched none = false
is_watched (some rq) = rq.name == resource_quota_name

-- The loop.
unfoldable pub requests_for : String → List BudgetNamespace → List NamespacedName
requests_for namespace [] = []
requests_for namespace (bn ∷ bns) =
    let rest = requests_for namespace bns in
    if not (bn.spec.namespace_name == namespace)
    then rest
    else record { namespace = bn.namespace; name = bn.name } ∷ rest

unfoldable pub listed_requests :
    String → Result ApiError (List BudgetNamespace) → List NamespacedName
listed_requests namespace (err e) = []
listed_requests namespace (ok bns) = requests_for namespace bns

module _ {F Q S : Type 0} (r : Reconciler F Q S) where
  unfoldable pub resource_quota_to_requests :
      Option (ResourceQuota Q) → Action S (List NamespacedName)
  unfolding requests_for listed_requests
  resource_quota_to_requests none = pure []
  resource_quota_to_requests (some rq) =
      if not (rq.name == resource_quota_name)
      then pure []
      else fetch r.client.list_budget_namespaces
        >>= (λ found. pure (listed_requests rq.namespace found))
