-- ===== src/Controller/Reconcile/Evaluated.antt =====
-- Whether a reconciliation says in the status whether the budget is exceeded.
use costguard_operator.Base.{◌≡◌, ◌↔◌, ◌⊎◌, String, Bool, true, false}
use costguard_operator.Go.Time.{Time}
use costguard_operator.Api.{BudgetNamespace}
use costguard_operator.Kube.{ResourceQuota, ok}
use costguard_operator.Controller.Reconciler.{Reconciler, resource_quota_name}
use costguard_operator.Controller.Quota.{should_scale_deployments_to_zero}
use costguard_operator.Controller.Quota.Laws.{LimitReached}
use costguard_operator.Controller.Ttl.{Ttl}
use costguard_operator.Controller.Reconcile.Looked.{CostFound}

module _ {F Q S : Type 0} (r : Reconciler F Q S) where
  -- What OverBudget is set by: a quota that the server answered with, and the spend.
  pub record Judged (bn : BudgetNamespace) (status : String) : Type 0 where
    pub quota : ResourceQuota Q
    pub asked : S
    pub answered :
        (r.client.get_resource_quota
          (record { namespace = bn.spec.namespace_name; name = resource_quota_name })
          asked).0
        ≡ ok quota
    pub over : Bool
    pub cost : CostFound r bn over
    pub is_either : (status ≡ "True") ⊎ (status ≡ "False")
    pub true_where : (status ≡ "True") ↔ (LimitReached r.quantities quota ⊎ (over ≡ true))

  abbrev Enforced : BudgetNamespace → Ttl → Type 0
  Enforced bn ttl = (should_scale_deployments_to_zero bn.spec ≡ true) × (ttl.expired ≡ false)

  abbrev Unenforced : BudgetNamespace → Ttl → Type 0
  Unenforced bn ttl = (should_scale_deployments_to_zero bn.spec ≡ false) ⊎ (ttl.expired ≡ true)

  -- The status of OverBudget.
  abbrev pub OverBudgetIs : BudgetNamespace → Ttl → String → Type 0
  OverBudgetIs bn ttl status =
      (Enforced bn ttl × Judged bn status) ⊎ (Unenforced bn ttl × (status ≡ "False"))
