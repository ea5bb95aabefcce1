-- ===== src/Controller/Quota.antt =====
-- internal/controller/budgetnamespace_controller.go: quotaUsedAtOrOverHard and
-- shouldScaleDeploymentsToZero. The range over the map of hard limits is a walk through its
-- entries in some order.
pub mod Laws
use costguard_operator.Base.{
  String, Bool, true, false, not, ◌||◌, List, [], ◌∷◌, Option, none, some, Map, lookup, ◌==◌,
  if◌then◌else◌, ℤ, pos, leb_ℤ,
}
use costguard_operator.Api.{BudgetNamespaceSpec}
use costguard_operator.Kube.{Quantities, ResourceQuota}
use costguard_operator.Controller.Reconciler.{enforcement_op_scale_to_zero}

module _ {Q : Type 0} (quantities : Quantities Q) where
  -- usedQty.Cmp(hardQty) >= 0, where there is a used quantity
  abbrev pub is_at_limit : Q → Option Q → Bool
  is_at_limit hard none = false
  is_at_limit hard (some used) = leb_ℤ (pos 0) (quantities.cmp used hard)

  unfoldable pub any_at_limit : Map Q → Map Q → Bool
  any_at_limit used [] = false
  any_at_limit used ((name, hard) ∷ rest) =
      let later = any_at_limit used rest in
      if is_at_limit hard (lookup name used) then true else later

  unfoldable pub quota_used_at_or_over_hard : ResourceQuota Q → Bool
  unfolding any_at_limit
  quota_used_at_or_over_hard rq = any_at_limit rq.used rq.hard

unfoldable pub should_scale_deployments_to_zero : BudgetNamespaceSpec → Bool
should_scale_deployments_to_zero spec =
    if spec.enforcement.action == "None"
    then false
    else if not spec.enforcement.enabled
    then false
    else spec.enforcement.action == "" || spec.enforcement.action == enforcement_op_scale_to_zero
