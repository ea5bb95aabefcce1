-- ===== src/Controller/Reconcile/Safety.antt =====
-- The requests of a whole run of Reconcile.
use costguard_operator.Base.{
  ◌≡◌, refl, sym, subst, ap, Bool, true, false, Option, none, some, if◌then◌else◌, String, ◌==◌,
}
use costguard_operator.Go.Time.{Time, Duration, add}
use costguard_operator.Go.Duration.{parse_duration}
use costguard_operator.Api.{BudgetNamespace, BudgetNamespaceSpec}
use costguard_operator.Kube.{
  ApiError, not_found, conflict, other_error, Error, Result, ok, err, NamespacedName,
}
use costguard_operator.Kube.Action.{Call, Action, World, pure, ◌>>=◌, or_fail, send, update_status}
use costguard_operator.Kube.Action.Ensures.{Ensures, IsOk, Ensures-bind, Ensures-pure}
use costguard_operator.Kube.Action.Emits.{
  Emits, Emits-map, Grows, Grows-refl, emits_rules, Emits-bind, Emits-bind_ensured, Emits-pure,
  Emits-send, Emits-fail,
}
use costguard_operator.Controller.Reconciler.{Reconciler}
use costguard_operator.Controller.Ttl.{
  Ttl, ttl_state, no_ttl, ttl_at, ttl_requeue, until, is_expired, is_deleting,
}
use costguard_operator.Controller.Enforce.{Progress}
use costguard_operator.Controller.Status.{with_new_status}
use costguard_operator.Controller.Cost.{validate_cost_budget_spec}
use costguard_operator.Controller.Reconcile.{
  ReconcileResult, act, act_and_write, status_result, write_status, reconcile_at, reconcile_valid,
  reconcile_checked, reconcile_found, reconcile,
}
use costguard_operator.Controller.Reconcile.Permitted.{
  Permits, acts_lawfully, by_expiry, expired_at, deleting_at,
}
use costguard_operator.Controller.Reconcile.SameSpec.{SameSpec}
use costguard_operator.Controller.Reconcile.Acting.{act-Emits, act-SameSpec}

module _ {F Q S : Type 0} (r : Reconciler F Q S) where
  status_result-Emits :
      (P : Call → Type 0) (spec : BudgetNamespaceSpec) (ttl : Ttl)
      (answer : Result ApiError (Unit {0}))
      → Emits P (status_result r spec ttl answer)
  unfolding status_result
  status_result-Emits P spec ttl (ok done) = Emits-pure _
  status_result-Emits P spec ttl (err conflict) = Emits-pure _
  status_result-Emits P spec ttl (err not_found) = Emits-fail _
  status_result-Emits P spec ttl (err (other_error what)) = Emits-fail _

  with_new_status-SameSpec :
      (spec : BudgetNamespaceSpec) (s : S) (p : Progress) (ttl : Ttl)
      → SameSpec spec p.budget_namespace
      → SameSpec spec (with_new_status r s p ttl)
  unfolding with_new_status
  with_new_status-SameSpec spec s p ttl same = same

  written :
      (spec : BudgetNamespaceSpec) (expired deleting : Bool) (ttl : Ttl) (p : Progress)
      → SameSpec spec p.budget_namespace
      → (w : World S)
      → Grows (Permits spec expired deleting) w.calls (write_status r ttl p w).1.calls
  unfolding write_status
  written spec e d ttl p same w =
      let new = with_new_status r w.server p ttl in
      (Emits-bind (send (update_status new) (r.client.update_status new))
          (status_result r new.spec ttl)
          (Emits-send _ _ (with_new_status-SameSpec spec w.server p ttl same))
          (status_result-Emits (Permits spec e d) new.spec ttl)).at
        w

  write_status-Emits :
      (spec : BudgetNamespaceSpec) (expired deleting : Bool) (ttl : Ttl) (p : Progress)
      → SameSpec spec p.budget_namespace
      → Emits (Permits spec expired deleting) (write_status r ttl p)
  write_status-Emits spec e d ttl p same = record { at = written spec e d ttl p same }

  pub ttl_state-Emits :
      (P : Call → Type 0) (ttl : String) (created now : Time)
      → Emits P (ttl_state r ttl created now)
  unfolding ttl_state ttl_at ttl_requeue until
  ttl_state-Emits P ttl created now = search emits_rules depth 12

  -- The branch that is taken is the one that the resource's TTL sets.
  abbrev Timed : Bool → Bool → Ttl → Type 0
  Timed e d ttl = (ttl.expired ≡ e) × (ttl.deleting ≡ d)

  ttl_at-Timed :
      (expiry now : Time)
      → Ensures (Timed (is_expired expiry now) (is_deleting expiry now)) (ttl_at r expiry now)
  unfolding ttl_at
  ttl_at-Timed expiry now = Ensures-bind _ _ (λ wait. Ensures-pure _ (refl, refl))

  parsed-Timed :
      (e : Error) (created now : Time) (o : Option Duration)
      → Ensures
          (Timed
            (by_expiry r (λ expiry. is_expired expiry now) created o)
            (by_expiry r (λ expiry. is_deleting expiry now) created o))
          (or_fail e o >>= (λ ttl_duration. ttl_at r (add created ttl_duration) now))
  parsed-Timed e created now none = record {
    of_value = λ w w' ttl q. absurd (subst IsOk (sym q) tt);
  }
  parsed-Timed e created now (some d) = record {
    of_value = λ w w' ttl q. (ttl_at-Timed (add created d) now).of_value w w' ttl q;
  }

  unset_or-Timed :
      (unset : Bool) (m : Action S Ttl) (e d : Bool)
      → Ensures (Timed e d) m
      → Ensures
          (Timed (if unset then false else e) (if unset then false else d))
          (if unset then pure no_ttl else m)
  unset_or-Timed true m e d h = Ensures-pure _ (refl, refl)
  unset_or-Timed false m e d h = h

  ttl_state-Timed :
      (bn : BudgetNamespace) (now : Time)
      → Ensures
          (Timed (expired_at r bn now) (deleting_at r bn now))
          (ttl_state r bn.spec.ttl bn.creation_timestamp now)
  unfolding ttl_state expired_at deleting_at
  ttl_state-Timed bn now =
      unset_or-Timed (bn.spec.ttl == "") _ _ _
        (parsed-Timed _ bn.creation_timestamp now (parse_duration r.floats.fraction_of bn.spec.ttl))

  act_and_write-Emits :
      (bn : BudgetNamespace) (now : Time) (ttl : Ttl)
      → Emits (Permits bn.spec ttl.expired ttl.deleting) (act_and_write r bn now ttl)
  unfolding act_and_write
  act_and_write-Emits bn now ttl =
      Emits-bind_ensured _ _
        (Emits-map (Permits bn.spec ttl.expired ttl.deleting) (act r bn now ttl)
          (acts_lawfully bn.spec ttl.expired ttl.deleting) (act-Emits r bn now ttl))
        (act-SameSpec r bn now ttl)
        (λ p same. write_status-Emits bn.spec ttl.expired ttl.deleting ttl p same)

  reached_act-Emits :
      (bn : BudgetNamespace) (now : Time) (e d : Bool) (ttl : Ttl)
      → Timed e d ttl
      → Emits (Permits bn.spec e d) (act_and_write r bn now ttl)
  reached_act-Emits bn now e d ttl (same_e, same_d) =
      subst (λ (x : Bool). Emits (Permits bn.spec x d) (act_and_write r bn now ttl)) same_e
        (subst (λ (x : Bool). Emits (Permits bn.spec ttl.expired x) (act_and_write r bn now ttl))
          same_d (act_and_write-Emits bn now ttl))

  reconcile_at-Emits :
      (bn : BudgetNamespace) (now : Time)
      → Emits (Permits bn.spec (expired_at r bn now) (deleting_at r bn now)) (reconcile_at r bn now)
  unfolding reconcile_at
  reconcile_at-Emits bn now =
      Emits-bind_ensured _ _ (ttl_state-Emits _ bn.spec.ttl bn.creation_timestamp now)
        (ttl_state-Timed bn now)
        (reached_act-Emits bn now (expired_at r bn now) (deleting_at r bn now))

  -- The requests from `w` on are those that the resource permits at the time read there.
  abbrev PermittedFrom : BudgetNamespace → World S → World S → Type 0
  PermittedFrom bn w w' =
      let now = (r.client.now w.server).0 in
      Grows (Permits bn.spec (expired_at r bn now) (deleting_at r bn now)) w.calls w'.calls

  valid_permitted :
      (bn : BudgetNamespace) (w : World S) → PermittedFrom bn w (reconcile_valid r bn w).1
  unfolding reconcile_valid
  valid_permitted bn w =
      let (now, s) = r.client.now w.server in
      (reconcile_at-Emits bn now).at (record w { server = s })

  checked_permitted :
      (bn : BudgetNamespace) (invalid : Option Error) (w : World S)
      → PermittedFrom bn w (reconcile_checked r bn invalid w).1
  unfolding reconcile_checked
  checked_permitted bn none w = valid_permitted bn w
  checked_permitted bn (some e) w = Grows-refl _ w.calls

  found_permitted :
      (bn : BudgetNamespace) (w : World S) → PermittedFrom bn w (reconcile_found r (ok bn) w).1
  unfolding reconcile_found
  found_permitted bn w = checked_permitted bn (validate_cost_budget_spec r bn.spec) w

  -- Whatever the server, the clock and the spend query answer, and whether it succeeds or fails,
  -- Reconcile adds to the record only requests that the BudgetNamespace it read permits at the
  -- time it read: everything in the managed namespace; the Namespace, the ResourceQuota and the
  -- LimitRange only before the TTL has run out, the deletion only once the grace period has too; a
  -- patch only with the scale-to-zero enforcement on, either to scale a workload that is not exempt
  -- to zero before the deletion is due, or to restore one before the expiry with restoring on; a
  -- spend query only for a live namespace with enforcement and a cost budget on; and a status
  -- update only with the spec as read. The server answered the read with the resource.
  pub reconcile_permitted :
      (req : NamespacedName) (w : World S) (bn : BudgetNamespace) (s : S)
      → r.client.get_budget_namespace req w.server ≡ (ok bn, s)
      → (let now = (r.client.now s).0 in
          Grows
            (Permits bn.spec (expired_at r bn now) (deleting_at r bn now))
            w.calls
            (reconcile r req w).1.calls)
  unfolding reconcile
  reconcile_permitted req w bn s e =
      let now = (r.client.now s).0 in
      subst
        (λ (q : Result Error ReconcileResult × World S).
          Grows (Permits bn.spec (expired_at r bn now) (deleting_at r bn now)) w.calls q.1.calls)
        (sym (
          ap
            (λ (q : Result ApiError BudgetNamespace × S).
              reconcile_found r q.0 (record w { server = q.1 }))
            e))
        (found_permitted bn (record w { server = s }))
