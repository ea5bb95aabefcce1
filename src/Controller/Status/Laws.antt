-- ===== src/Controller/Status/Laws.antt =====
-- What the conditions of the status say.
use costguard_operator.Base.{
  ◌≡◌, ◌↔◌, ◌⊎◌, inl, inr, refl, ap, ◌∙◌, String, Bool, true, false, not, ◌&&◌, List, [], ◌∷◌, ◌++◌,
  arith, if◌then◌else◌, ◌==◌, map,
}
use mathlib.Core.List.{map-append}
use mathlib.Core.Path.{ap₂}
use costguard_operator.Api.{BudgetNamespace, Condition}
use costguard_operator.Controller.Reconciler.{
  condition_type_expired, condition_type_over_budget, condition_type_enforcement_recovery_deferred,
  condition_type_ready,
}
use costguard_operator.Controller.Quota.{should_scale_deployments_to_zero}
use costguard_operator.Controller.Ttl.{Ttl}
use costguard_operator.Controller.Enforce.{Progress, at_budget_risk}
use costguard_operator.Controller.Status.{
  condition_true, condition_false, ttl_expired, expired_conditions, over_budget_conditions,
  over_budget_evaluated, recovery_condition, ready_condition, new_conditions,
}

-- A status of a condition, by a Boolean.
abbrev pub truth : Bool → String
truth true = "True"
truth false = "False"

pub true_iff : (b : Bool) → (truth b ≡ "True") ↔ (b ≡ true)
true_iff true = (λ _. refl, λ _. refl)
true_iff false = (
  λ e. absurd (ground (arith, ap (λ (s : String). s == "True") e)),
  λ e. absurd (ground (arith, e)),
)

pub one_of : (b : Bool) → (truth b ≡ "True") ⊎ (truth b ≡ "False")
one_of true = inl refl
one_of false = inr refl

-- Ready and Expired are opposites wherever the TTL is set; without one, Ready is true and Expired is
-- not set.
ready_and_expired :
    (bn : BudgetNamespace) (ttl : Ttl)
    → ((bn.spec.ttl == "") ≡ true
        → ((ready_condition bn ttl).status ≡ condition_true) × (expired_conditions bn ttl ≡ []))
      × ((bn.spec.ttl == "") ≡ false
          → ((ready_condition bn ttl).status
              ≡ (if ttl.expired then condition_false else condition_true))
            × (map (λ (c : Condition). c.status) (expired_conditions bn ttl)
                ≡ (if ttl.expired then condition_true else condition_false) ∷ []))
unfolding ready_condition expired_conditions
ready_and_expired bn ttl = ground arith

abbrev pub types_and_statuses : List Condition → List (String × String)
types_and_statuses cs = map (λ (c : Condition). (c.condition_type, c.status)) cs

-- Enforcement is on and the quota was evaluated.
abbrev is_evaluated : Progress → Bool
is_evaluated p = should_scale_deployments_to_zero p.budget_namespace.spec && p.quota_evaluated

-- The one reconciliation that leaves OverBudget as it was: enforcement is on, but neither was the
-- quota evaluated nor has the TTL run out.
abbrev pub leaves_over_budget : Progress → Ttl → Bool
leaves_over_budget p ttl =
    should_scale_deployments_to_zero p.budget_namespace.spec
    && (not p.quota_evaluated && not (ttl_expired p.budget_namespace ttl))

-- OverBudget is set to true exactly when enforcement is on, the quota was evaluated, and the quota
-- or the cost was found at its limit; it is left as it was only where enforcement is on, the quota
-- was not evaluated and the TTL has not run out; otherwise it is set to false.
pub over_budget_status :
    (p : Progress) (ttl : Ttl)
    → types_and_statuses (over_budget_conditions p ttl) ≡ (
        if is_evaluated p && at_budget_risk p
        then ("OverBudget", "True") ∷ []
        else if leaves_over_budget p ttl
        then []
        else ("OverBudget", "False") ∷ [])
unfolding over_budget_conditions over_budget_evaluated
over_budget_status p ttl = ground arith

abbrev types : List Condition → List String
types cs = map (λ (c : Condition). c.condition_type) cs

expired_types :
    (bn : BudgetNamespace) (ttl : Ttl)
    → types (expired_conditions bn ttl)
      ≡ (if bn.spec.ttl == "" then [] else condition_type_expired ∷ [])
unfolding expired_conditions
expired_types bn ttl = ground arith

over_budget_types :
    (p : Progress) (ttl : Ttl)
    → types (over_budget_conditions p ttl)
      ≡ (if leaves_over_budget p ttl then [] else condition_type_over_budget ∷ [])
unfolding over_budget_conditions over_budget_evaluated
over_budget_types p ttl = ground arith

recovery_type :
    (p : Progress)
    → (recovery_condition p).condition_type ≡ condition_type_enforcement_recovery_deferred
unfolding recovery_condition
recovery_type p = ground arith

ready_type :
    (bn : BudgetNamespace) (ttl : Ttl)
    → (ready_condition bn ttl).condition_type ≡ condition_type_ready
unfolding ready_condition
ready_type bn ttl = ground arith

-- The conditions that one reconciliation sets are of different types, so that none overwrites
-- another: Expired where the TTL is set, OverBudget except where it is left as it was, and always
-- EnforcementRecoveryDeferred and Ready, in this order.
pub condition_types :
    (p : Progress) (ttl : Ttl)
    → map (λ (c : Condition). c.condition_type) (new_conditions p ttl)
      ≡ (if p.budget_namespace.spec.ttl == "" then [] else condition_type_expired ∷ [])
        ++ ((if leaves_over_budget p ttl then [] else condition_type_over_budget ∷ [])
            ++ (condition_type_enforcement_recovery_deferred ∷ condition_type_ready ∷ []))
unfolding new_conditions
condition_types p ttl =
    let bn = p.budget_namespace in
    map-append (λ (c : Condition). c.condition_type) (expired_conditions bn ttl) _
    ∙ ap₂ (λ (x y : List String). x ++ y) (expired_types bn ttl)
        (map-append (λ (c : Condition). c.condition_type) (over_budget_conditions p ttl) _
          ∙ ap₂ (λ (x y : List String). x ++ y) (over_budget_types p ttl)
              (ap₂ (λ (x y : String). x ∷ y ∷ []) (recovery_type p) (ready_type bn ttl)))
