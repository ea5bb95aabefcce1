-- ===== src/Examples/Reconciling.antt =====
-- Reconcile and its parts on the small cluster.
use costguard_operator.Base.{
  lookup, lookup-nil, ◌≡◌, ◌≢◌, ◌↔◌, ◌⊎◌, inr, ap, arith, String, ◌==◌, refl, true, false, List, [],
  ◌∷◌, none, some, pos,
}
use mathlib.Core.List.{Memᴰ}
use costguard_operator.Go.Duration.{parse_duration}
use costguard_operator.Api.{BudgetNamespace}
use costguard_operator.Kube.{Error, not_found, ok, err, NamespacedName}
use costguard_operator.Kube.Action.Emits.{Grows}
use costguard_operator.Kube.Action.{World}
use costguard_operator.Kube.{Result}
use costguard_operator.Controller.Reconciler.{record_normal}
use costguard_operator.Controller.Quota.{should_scale_deployments_to_zero}
use costguard_operator.Controller.Restore.Cooldown.{CooldownRuns}
use costguard_operator.Controller.Enforce.{
  Progress, start_progress, restore_or_defer, defer_for_cost,
}
use costguard_operator.Controller.Status.{recovery_condition}
use costguard_operator.Controller.Status.Deferred.{recovery_status}
use costguard_operator.Controller.Watches.{resource_quota_to_requests}
use costguard_operator.Controller.Watches.Laws.{request_of, Origin, woken}
use costguard_operator.Controller.Reconcile.{reconcile}
use costguard_operator.Controller.Reconcile.Permitted.{Permits, expired_at, deleting_at}
use costguard_operator.Controller.Reconcile.Safety.{reconcile_permitted}
use costguard_operator.Controller.Reconcile.Errors.{Refused, reconcile_refuses}
use costguard_operator.Controller.Scale.{map_or_empty}
use costguard_operator.Controller.Ensure.{merge_map}
use costguard_operator.Controller.Ensure.Merging.{either, merged}
use costguard_operator.Examples.Cluster.{
  Cluster, reconciler, spec, budget_namespace, resource_quota, cluster, at_cluster, request,
}

reconcile_permitted_example :
    Grows
      (Permits spec
        (expired_at reconciler budget_namespace (pos 2000))
        (deleting_at reconciler budget_namespace (pos 2000)))
      []
      (reconcile reconciler request (at_cluster cluster)).1.calls
reconcile_permitted_example =
    reconcile_permitted reconciler request (at_cluster cluster) budget_namespace cluster refl

abbrev empty_cluster : Cluster
empty_cluster = record cluster { resource = err not_found }

-- A TTL that is no Go duration, and no cost budget.
abbrev unparsed_namespace : BudgetNamespace
unparsed_namespace = record budget_namespace {
  spec = record spec { ttl = "1 hour"; cost_budget = none };
}

abbrev unparsed_cluster : Cluster
unparsed_cluster = record cluster { resource = ok unparsed_namespace }

not_a_duration : parse_duration reconciler.floats.fraction_of "1 hour" ≡ none
unfolding parse_duration
not_a_duration = refl

reconcile_refuses_example :
    Refused reconciler
      (at_cluster unparsed_cluster)
      (reconcile reconciler request (at_cluster unparsed_cluster))
reconcile_refuses_example =
    reconcile_refuses reconciler request (at_cluster unparsed_cluster) unparsed_namespace
      unparsed_cluster refl (inr (some_text, not_a_duration))
  where
    some_text : unparsed_namespace.spec.ttl ≢ ""
    some_text e = ground (arith, ap (λ (s : String). s == "") e)

-- The quota was looked at, and nothing is recorded.
abbrev looked : Progress
looked = record (start_progress budget_namespace) { quota_evaluated = true }

is_enforced : should_scale_deployments_to_zero looked.budget_namespace.spec ≡ true
unfolding should_scale_deployments_to_zero start_progress
is_enforced = refl

not_put_off : looked.recovery_deferred ≡ false
unfolding start_progress
not_put_off = refl

abbrev cost_run : Result Error Progress × World Cluster
cost_run = restore_or_defer reconciler looked (pos 600) (pos 2000) false (at_cluster cluster)

cost_ran : cost_run ≡ (ok looked, cost_run.1)
unfolding restore_or_defer defer_for_cost record_normal start_progress
cost_ran = refl

recovery_status_example :
    ((recovery_condition looked).condition_type ≡ "EnforcementRecoveryDeferred")
    × (((recovery_condition looked).status ≡ "True") ↔ (
        (false ≡ true) × CooldownRuns looked.last_enf_op looked.last_enf_at (pos 600) (pos 2000)))
    × (((recovery_condition looked).status ≡ "True")
        ⊎ ((recovery_condition looked).status ≡ "False"))
recovery_status_example =
    recovery_status reconciler looked looked (pos 600) (pos 2000) false (at_cluster cluster)
      cost_run.1 is_enforced refl not_put_off cost_ran

woken_example :
    (reqs : List NamespacedName) × (resource_quota_to_requests reconciler
        (some resource_quota)
        (at_cluster cluster)
      ≡ (ok reqs, at_cluster cluster))
    × ((bn : BudgetNamespace)
        → Memᴰ bn (budget_namespace ∷ [])
        → bn.spec.namespace_name ≡ "team-a"
        → Memᴰ (request_of bn) reqs)
    × ((req : NamespacedName) → Memᴰ req reqs → Origin "team-a" (budget_namespace ∷ []) req)
woken_example =
    woken reconciler resource_quota (at_cluster cluster) (budget_namespace ∷ []) cluster refl refl

merged_example :
    (lookup "team"
        (map_or_empty (merge_map (some (("team", "a") ∷ [])) (some (("owner", "x") ∷ []))))
      ≡ either (lookup "team" (("team", "a") ∷ [])) (lookup "team" (("owner", "x") ∷ [])))
    × (merge_map none (some (("owner", "x") ∷ [])) ≡ some (("owner", "x") ∷ []))
merged_example =
    merged (("team", "a") ∷ []) (some (("owner", "x") ∷ [])) "team" (lookup-nil "team", tt)
