-- ===== src/Controller/Reconcile/StatusWrite.antt =====
-- The status update at the end of Reconcile.
use costguard_operator.Base.{
  ◌≡◌, refl, sym, subst, ap, ◌⊎◌, inl, inr, Option, none, some, List, [], ◌∷◌, ◌++◌,
}
use costguard_operator.Go.Time.{Time}
use costguard_operator.Api.{BudgetNamespace, BudgetNamespaceSpec}
use costguard_operator.Kube.{
  ApiError, not_found, conflict, other_error, Error, Result, ok, err, NamespacedName,
}
use costguard_operator.Kube.Action.{Call, Action, World, ◌>>=◌, update_status}
use costguard_operator.Kube.Action.Emits.{Emits, Emits-map, Grows, Grows-refl, Grows-trans}
use costguard_operator.Kube.Action.Run.{Outcome, done, failed, outcome, bind_ok, bind_err}
use costguard_operator.Controller.Reconciler.{Reconciler}
use costguard_operator.Controller.Ttl.{Ttl, ttl_state}
use costguard_operator.Controller.Enforce.{Progress}
use costguard_operator.Controller.Status.{with_new_status}
use costguard_operator.Controller.Cost.{validate_cost_budget_spec}
use costguard_operator.Controller.Reconcile.{
  act, act_and_write, status_result, write_status, reconcile_at, reconcile_valid, reconcile_checked,
  reconcile_found, reconcile,
}
use costguard_operator.Controller.Reconcile.Permitted.{IsNoStatus, acts_without_update}
use costguard_operator.Controller.Reconcile.Acting.{act-Emits}
use costguard_operator.Controller.Reconcile.Safety.{ttl_state-Emits}

-- A run that ended: it failed and sent no status update, or sent one, as its last request.
abbrev pub WritesOnce : {A : Type 0} → List Call → Result Error A → List Call → Type 0
WritesOnce before q after =
    ((e : Error) × (q ≡ err e) × Grows IsNoStatus before after)
    ⊎ ((bn : BudgetNamespace) × (middle : List Call) × Grows IsNoStatus before middle
        × (after ≡ middle ++ update_status bn ∷ []))

module _ {F Q S : Type 0} (r : Reconciler F Q S) where
  abbrev Once : {A : Type 0} → List Call → Result Error A × World S → Type 0
  Once before p = WritesOnce before p.0 p.1.calls

  -- What follows a first part without a status update.
  later :
      {A : Type 0} (a b : List Call) (p : Result Error A × World S)
      → Grows IsNoStatus a b
      → Once b p
      → Once a p
  later a b p g (inl (e, is_err, h)) = inl (e, is_err, Grows-trans IsNoStatus a b p.1.calls g h)
  later a b p g (inr (bn, middle, h, last)) =
      inr (bn, middle, Grows-trans IsNoStatus a b middle g h, last)

  status_result-keeps :
      (spec : BudgetNamespaceSpec) (ttl : Ttl) (answer : Result ApiError (Unit {0})) (w : World S)
      → (status_result r spec ttl answer w).1 ≡ w
  unfolding status_result
  status_result-keeps spec ttl (ok u) w = refl
  status_result-keeps spec ttl (err conflict) w = refl
  status_result-keeps spec ttl (err not_found) w = refl
  status_result-keeps spec ttl (err (other_error what)) w = refl

  write_status-Once :
      (ttl : Ttl) (p : Progress) (w : World S) → Once w.calls (write_status r ttl p w)
  unfolding write_status
  write_status-Once ttl p w =
      let bn = with_new_status r w.server p ttl in
      let (answer, s) = r.client.update_status bn w.server in
      inr (
        bn,
        w.calls,
        Grows-refl IsNoStatus w.calls,
        ap (λ (v : World S). v.calls)
            (status_result-keeps bn.spec ttl answer
              (record w { server = s; calls = w.calls ++ update_status bn ∷ [] })),
      )

  -- An action without a status update, and then one that ends in one.
  Once-bind :
      {A B : Type 0} (m : Action S A) (f : A → Action S B)
      → Emits IsNoStatus m
      → ((a : A) (w : World S) → Once w.calls (f a w))
      → (w : World S) → Once w.calls ((m >>= f) w)
  Once-bind {A} m f h k w = by_outcome (outcome m w)
    where
      by_outcome : Outcome m w → Once w.calls ((m >>= f) w)
      by_outcome (done a y p) = subst (Once w.calls) (sym (bind_ok m f w a y p)) (
          later w.calls y.calls (f a y)
            (subst (λ (q : Result Error A × World S). Grows IsNoStatus w.calls q.1.calls) p
              (h.at w))
            (k a y))
      by_outcome (failed e y p) = subst (Once w.calls) (sym (bind_err m f w e y p)) (
          inl (
            e,
            refl,
            subst (λ (q : Result Error A × World S). Grows IsNoStatus w.calls q.1.calls) p (h.at w),
          ))

  act_and_write-Once :
      (bn : BudgetNamespace) (now : Time) (ttl : Ttl) (w : World S)
      → Once w.calls (act_and_write r bn now ttl w)
  unfolding act_and_write
  act_and_write-Once bn now ttl =
      Once-bind (act r bn now ttl) (write_status r ttl)
        (Emits-map IsNoStatus (act r bn now ttl)
          (acts_without_update bn.spec ttl.expired ttl.deleting) (act-Emits r bn now ttl))
        (write_status-Once ttl)

  reconcile_at-Once :
      (bn : BudgetNamespace) (now : Time) (w : World S) → Once w.calls (reconcile_at r bn now w)
  unfolding reconcile_at
  reconcile_at-Once bn now =
      Once-bind (ttl_state r bn.spec.ttl bn.creation_timestamp now) (act_and_write r bn now)
        (ttl_state-Emits r IsNoStatus bn.spec.ttl bn.creation_timestamp now)
        (act_and_write-Once bn now)

  checked-Once :
      (bn : BudgetNamespace) (invalid : Option Error) (w : World S)
      → Once w.calls (reconcile_checked r bn invalid w)
  unfolding reconcile_checked reconcile_valid
  checked-Once bn none w =
      let (now, s) = r.client.now w.server in reconcile_at-Once bn now (record w { server = s })
  checked-Once bn (some e) w = inl (e, refl, Grows-refl IsNoStatus w.calls)

  -- A reconciliation of a BudgetNamespace that exists either sends exactly one status update, as its
  -- last request, or fails and sends none, whatever requests it has sent by then.
  pub status_once :
      (req : NamespacedName) (w : World S) (bn : BudgetNamespace) (s : S)
      → r.client.get_budget_namespace req w.server ≡ (ok bn, s)
      → WritesOnce w.calls (reconcile r req w).0 (reconcile r req w).1.calls
  unfolding reconcile reconcile_found
  status_once req w bn s e =
      subst (Once w.calls)
        (sym (
          ap
            (λ (q : Result ApiError BudgetNamespace × S).
              reconcile_found r q.0 (record w { server = q.1 }))
            e))
        (checked-Once bn (validate_cost_budget_spec r bn.spec) (record w { server = s }))
