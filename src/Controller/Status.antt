-- ===== src/Controller/Status.antt =====
-- internal/controller/budgetnamespace_controller.go, Reconcile: the status that a reconciliation
-- writes. The conditions are set one after another by the library's SetStatusCondition.
pub mod Laws
pub mod Deferred
pub mod Final
use costguard_operator.Base.{
  String, Bool, true, false, not, ◌&&◌, ◌||◌, List, [], ◌∷◌, ◌++◌, Option, none, some, ◌==◌,
  if◌then◌else◌,
}
use costguard_operator.Api.{BudgetNamespace, Condition, Message, text, naming, lasting}
use costguard_operator.Controller.Reconciler.{
  Reconciler, condition_type_expired, condition_type_over_budget,
  condition_type_enforcement_recovery_deferred, condition_type_ready, condition_reason_ttl_expired,
  ttl_delete_grace_period,
}
use costguard_operator.Controller.Cost.{cost_budget_enabled, over_budget_reason_message}
use costguard_operator.Controller.Quota.{should_scale_deployments_to_zero}
use costguard_operator.Controller.Ttl.{Ttl}
use costguard_operator.Controller.Enforce.{Progress, at_budget_risk}

abbrev pub condition_true : String
condition_true = "True"

abbrev pub condition_false : String
condition_false = "False"

abbrev condition : BudgetNamespace → String → String → String → Message → Condition
condition bn condition_type status reason message = record {
  condition_type = condition_type;
  status = status;
  reason = reason;
  message = message;
  observed_generation = bn.generation;
}

-- Spec.TTL != "" && expired
abbrev pub ttl_expired : BudgetNamespace → Ttl → Bool
ttl_expired bn ttl = not (bn.spec.ttl == "") && ttl.expired

unfoldable pub expired_conditions : BudgetNamespace → Ttl → List Condition
expired_conditions bn ttl =
    if bn.spec.ttl == ""
    then []
    else if ttl.expired
    then condition bn condition_type_expired condition_true condition_reason_ttl_expired
        (lasting "Namespace TTL expired; deleting after %s" ttl_delete_grace_period)
      ∷ []
    else condition bn condition_type_expired condition_false "TTLActive" (text "TTL is active") ∷ []

unfoldable pub over_budget_evaluated : Progress → Condition
over_budget_evaluated p =
    let bn = p.budget_namespace in
    if at_budget_risk p
    then condition bn condition_type_over_budget condition_true
        (over_budget_reason_message p.quota_at_hard_limit p.cost_over_budget).0
        (over_budget_reason_message p.quota_at_hard_limit p.cost_over_budget).1
    else condition bn condition_type_over_budget condition_false "WithinBudget" (
        if cost_budget_enabled bn.spec && p.cost_budget_evaluated
        then text "ResourceQuota usage is below hard limits and billed spend is below maxSpendUSD"
        else text "ResourceQuota usage is below hard limits")

-- The first switch; no condition if no case applies.
unfoldable pub over_budget_conditions : Progress → Ttl → List Condition
unfolding over_budget_evaluated
over_budget_conditions p ttl =
    let bn = p.budget_namespace in
    if not (should_scale_deployments_to_zero bn.spec)
    then condition bn condition_type_over_budget condition_false "EnforcementDisabled"
        (text "Scale-to-zero enforcement is disabled")
      ∷ []
    else if p.quota_evaluated
    then over_budget_evaluated p ∷ []
    else if ttl_expired bn ttl
    then condition bn condition_type_over_budget condition_false condition_reason_ttl_expired
        (text "Resource quota usage is not re-evaluated after TTL expiry")
      ∷ []
    else []

-- The second switch.
unfoldable pub recovery_condition : Progress → Condition
recovery_condition p =
    let bn = p.budget_namespace in
    if not (should_scale_deployments_to_zero bn.spec) || not p.quota_evaluated
    then condition bn condition_type_enforcement_recovery_deferred condition_false "NotApplicable"
        (text "Enforcement recovery deferral is not tracked in this state")
    else if p.recovery_deferred
    then condition bn condition_type_enforcement_recovery_deferred condition_true
        "AwaitingEnforcementCooldown"
        (text "Restore is waiting for enforcement cooldown after scale-to-zero")
    else condition bn condition_type_enforcement_recovery_deferred condition_false "NotDeferred"
        (text "No restore action is blocked by enforcement cooldown")

unfoldable pub ready_condition : BudgetNamespace → Ttl → Condition
ready_condition bn ttl =
    if ttl_expired bn ttl
    then condition bn condition_type_ready condition_false condition_reason_ttl_expired
        (naming "Namespace %q is expired by TTL" bn.spec.namespace_name)
    else condition bn condition_type_ready condition_true "NamespaceReady"
        (naming "Namespace %q is present" bn.spec.namespace_name)

-- The conditions that one reconciliation sets, in order.
unfoldable pub new_conditions : Progress → Ttl → List Condition
unfolding expired_conditions over_budget_conditions recovery_condition ready_condition
new_conditions p ttl =
    expired_conditions p.budget_namespace ttl
    ++ (over_budget_conditions p ttl
        ++ (recovery_condition p ∷ ready_condition p.budget_namespace ttl ∷ []))

module _ {F Q S : Type 0} (r : Reconciler F Q S) where
  unfoldable pub set_conditions : S → List Condition → List Condition → List Condition
  set_conditions s conditions [] = conditions
  set_conditions s conditions (c ∷ cs) =
      set_conditions s (r.client.set_status_condition s conditions c) cs

  -- The resource with its new status.
  unfoldable pub with_new_status : S → Progress → Ttl → BudgetNamespace
  unfolding set_conditions new_conditions
  with_new_status s p ttl =
      let bn = p.budget_namespace in
      record bn {
        status = record bn.status {
          observed_generation = bn.generation;
          managed_namespace = bn.spec.namespace_name;
          expires_at = ttl.expires_at;
          last_enforcement_at = p.last_enf_at;
          last_enforcement_operation = p.last_enf_op;
          conditions = set_conditions s bn.status.conditions (new_conditions p ttl);
        };
      }
