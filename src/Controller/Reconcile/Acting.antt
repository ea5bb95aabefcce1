-- ===== src/Controller/Reconcile/Acting.antt =====
-- The requests of the branches on the life of the namespace, together.
use costguard_operator.Base.{◌≡◌, refl, Bool, true, false, not, ◌&&◌, arith}
use costguard_operator.Go.Time.{Time}
use costguard_operator.Api.{BudgetNamespace}
use costguard_operator.Kube.Action.{Action}
use costguard_operator.Kube.Action.Ensures.{Ensures, ensures_rules}
use costguard_operator.Kube.Action.Emits.{Emits, Emits-bind, Emits-pure, Emits-if}
use costguard_operator.Controller.Reconciler.{Reconciler}
use costguard_operator.Controller.Quota.{should_scale_deployments_to_zero}
use costguard_operator.Controller.Ttl.{Ttl}
use costguard_operator.Controller.Enforce.{Progress, start_progress}
use costguard_operator.Controller.Reconcile.{act, act_live, act_deleting, enforce_live}
use costguard_operator.Controller.Reconcile.Permitted.{PermitsAct}
use costguard_operator.Controller.Reconcile.SameSpec.{
  SameSpec, scale_in_grace-SameSpec, enforce_budget-SameSpec,
}
use costguard_operator.Controller.Reconcile.Branches.{
  scale_in_grace-Emits, enforce_budget-Emits, ensure_resources-Emits, delete_expired-Emits,
  start-SameSpec,
}

and_left : (b c : Bool) → (b && c) ≡ true → b ≡ true
and_left b c h = ground arith

and_right : (b c : Bool) → (b && c) ≡ true → c ≡ true
and_right b c h = ground arith

negated_true : (b : Bool) → not b ≡ true → b ≡ false
negated_true b h = ground arith

negated_false : (b : Bool) → not b ≡ false → b ≡ true
negated_false b h = ground arith

module _ {F Q S : Type 0} (r : Reconciler F Q S) where
  enforce_live-Emits :
      (bn : BudgetNamespace) (now : Time) (expired deleting : Bool)
      → expired ≡ false
      → Emits (PermitsAct bn.spec expired deleting) (enforce_live r bn now)
  unfolding enforce_live
  enforce_live-Emits bn now e d live =
      Emits-if _ _ _
        (λ on.
          enforce_budget-Emits r bn.spec e d (start_progress bn) now
            (start-SameSpec r bn.spec e d bn refl) on live)
        (λ _. Emits-pure _)

  act_live-Emits :
      (bn : BudgetNamespace) (now : Time) (expired deleting : Bool)
      → expired ≡ false
      → Emits (PermitsAct bn.spec expired deleting) (act_live r bn now)
  unfolding act_live
  act_live-Emits bn now e d live =
      Emits-bind _ _ (ensure_resources-Emits r bn.spec e d live)
        (λ _. enforce_live-Emits bn now e d live)

  act_deleting-Emits :
      (bn : BudgetNamespace) (expired deleting : Bool)
      → expired ≡ true
      → deleting ≡ true
      → Emits (PermitsAct bn.spec expired deleting) (act_deleting r bn)
  unfolding act_deleting
  act_deleting-Emits bn e d gone due =
      Emits-bind _ _ (delete_expired-Emits r bn.spec e d gone due) (λ _. Emits-pure _)

  pub act-Emits :
      (bn : BudgetNamespace) (now : Time) (ttl : Ttl)
      → Emits (PermitsAct bn.spec ttl.expired ttl.deleting) (act r bn now ttl)
  unfolding act
  act-Emits bn now ttl =
      let e = ttl.expired in
      let d = ttl.deleting in
      let on = should_scale_deployments_to_zero bn.spec in
      Emits-if _ _ _ (λ live. act_live-Emits bn now e d (negated_true e live))
        (λ gone.
          Emits-if _ _ _
            (λ grace.
              scale_in_grace-Emits r bn.spec e d (start_progress bn)
                (start-SameSpec r bn.spec e d bn refl) (and_right (not d) on grace)
                (negated_true d (and_left (not d) on grace)))
            (λ _.
              Emits-if _ _ _ (λ due. act_deleting-Emits bn e d (negated_false e gone) due)
                (λ _. Emits-pure _)))

  abbrev Kept : BudgetNamespace → Action S Progress → Type 0
  Kept bn = Ensures (λ (p : Progress). SameSpec bn.spec p.budget_namespace)

  start-Same : (bn : BudgetNamespace) → SameSpec bn.spec (start_progress bn).budget_namespace
  start-Same bn = start-SameSpec r bn.spec false false bn refl

  enforce_live-SameSpec : (bn : BudgetNamespace) (now : Time) → Kept bn (enforce_live r bn now)
  unfolding enforce_live
  enforce_live-SameSpec bn now =
      search (ensures_rules, enforce_budget-SameSpec r bn.spec, start-Same)

  act_live-SameSpec : (bn : BudgetNamespace) (now : Time) → Kept bn (act_live r bn now)
  unfolding act_live
  act_live-SameSpec bn now = search (ensures_rules, enforce_live-SameSpec)

  act_deleting-SameSpec : (bn : BudgetNamespace) → Kept bn (act_deleting r bn)
  unfolding act_deleting
  act_deleting-SameSpec bn = search (ensures_rules, start-Same)

  pub act-SameSpec : (bn : BudgetNamespace) (now : Time) (ttl : Ttl) → Kept bn (act r bn now ttl)
  unfolding act
  act-SameSpec bn now ttl =
      search
        (
          ensures_rules,
          act_live-SameSpec,
          scale_in_grace-SameSpec r bn.spec,
          act_deleting-SameSpec,
          start-Same,
        )
        depth 8
