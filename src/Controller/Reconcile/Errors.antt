-- ===== src/Controller/Reconcile/Errors.antt =====
-- The early returns of Reconcile: a failed read, an invalid cost budget, a TTL that does not parse.
use costguard_operator.Base.{
  ◌≡◌, ◌≢◌, refl, sym, subst, ap, ◌∙◌, ◌⊎◌, inl, inr, Option-cases, arith, eq_iff, String, Bool,
  false, Option, none, some, if◌then◌else◌, ◌==◌,
}
use costguard_operator.Go.Duration.{parse_duration}
use costguard_operator.Api.{BudgetNamespace}
use costguard_operator.Kube.{
  ApiError, not_found, conflict, other_error, Error, api_error, wrap, parse_error, Result, ok, err,
  NamespacedName,
}
use costguard_operator.Go.Time.{Time, Duration, add}
use costguard_operator.Kube.Action.{World, Action, pure, or_fail, ◌>>=◌}
use costguard_operator.Kube.Action.Run.{bind_err}
use costguard_operator.Controller.Reconciler.{Reconciler}
use costguard_operator.Controller.Cost.{validate_cost_budget_spec}
use costguard_operator.Controller.Cost.Validation.{IsAccepted, valid_iff}
use costguard_operator.Controller.Ttl.{Ttl, no_ttl, ttl_state, ttl_at}
use costguard_operator.Controller.Reconcile.{
  ReconcileResult, no_requeue, act_and_write, reconcile_at, reconcile_valid, reconcile_checked,
  reconcile_found, reconcile,
}

module _ {F Q S : Type 0} (r : Reconciler F Q S) where
  -- The result of Reconcile on each error of the read.
  abbrev unread_result : ApiError → Result Error ReconcileResult
  unread_result not_found = ok no_requeue
  unread_result conflict = err (api_error conflict)
  unread_result (other_error what) = err (api_error (other_error what))

  found_unread :
      (why : ApiError) (w : World S) → reconcile_found r (err why) w ≡ (unread_result why, w)
  unfolding reconcile_found
  found_unread not_found w = refl
  found_unread conflict w = refl
  found_unread (other_error what) w = refl

  answered :
      (req : NamespacedName) (w : World S) (answer : Result ApiError BudgetNamespace) (s : S)
      → r.client.get_budget_namespace req w.server ≡ (answer, s)
      → reconcile r req w ≡ reconcile_found r answer (record w { server = s })
  unfolding reconcile
  answered req w answer s e =
      ap
        (λ (q : Result ApiError BudgetNamespace × S).
          reconcile_found r q.0 (record w { server = q.1 }))
        e

  -- Where the read of the BudgetNamespace fails, Reconcile sends no request and records no event.
  -- It succeeds without asking for another run if the resource does not exist, and fails with the
  -- error of the read otherwise.
  reconcile_unread :
      (req : NamespacedName) (w : World S) (why : ApiError) (s : S)
      → r.client.get_budget_namespace req w.server ≡ (err why, s)
      → reconcile r req w ≡ (unread_result why, record w { server = s })
  reconcile_unread req w why s e =
      answered req w (err why) s e ∙ found_unread why (record w { server = s })

  -- Where the cost budget of the BudgetNamespace read is not valid, Reconcile fails with the error
  -- of the validation and does nothing else, whatever the TTL: an expired namespace is not deleted.
  reconcile_invalid :
      (req : NamespacedName) (w : World S) (bn : BudgetNamespace) (s : S) (e : Error)
      → r.client.get_budget_namespace req w.server ≡ (ok bn, s)
      → validate_cost_budget_spec r bn.spec ≡ some e
      → reconcile r req w ≡ (err e, record w { server = s })
  unfolding reconcile_found reconcile_checked
  reconcile_invalid req w bn s e read invalid =
      answered req w (ok bn) s read
      ∙ ap (λ (o : Option Error). reconcile_checked r bn o (record w { server = s })) invalid

  abbrev ttl_error : BudgetNamespace → Error
  ttl_error bn = wrap "parse spec.ttl %q: %w" (parse_error bn.spec.ttl)

  unparsed-ttl_state :
      (bn : BudgetNamespace) (now : Time) (w : World S)
      → (bn.spec.ttl == "") ≡ false
      → parse_duration r.floats.fraction_of bn.spec.ttl ≡ none
      → ttl_state r bn.spec.ttl bn.creation_timestamp now w ≡ (err (ttl_error bn), w)
  unfolding ttl_state
  unparsed-ttl_state bn now w set bad =
      let m : Duration → Action S Ttl = (λ d. ttl_at r (add bn.creation_timestamp d) now) in
      let o = parse_duration r.floats.fraction_of bn.spec.ttl in
      ap (λ (b : Bool). (if b then pure no_ttl else or_fail (ttl_error bn) o >>= m) w) set
      ∙ ap (λ (d : Option Duration). (or_fail (ttl_error bn) d >>= m) w) bad

  unparsed-reconcile_at :
      (bn : BudgetNamespace) (now : Time) (w : World S)
      → (bn.spec.ttl == "") ≡ false
      → parse_duration r.floats.fraction_of bn.spec.ttl ≡ none
      → reconcile_at r bn now w ≡ (err (ttl_error bn), w)
  unfolding reconcile_at
  unparsed-reconcile_at bn now w set bad =
      bind_err (ttl_state r bn.spec.ttl bn.creation_timestamp now) (act_and_write r bn now) w
        (ttl_error bn) w (unparsed-ttl_state bn now w set bad)

  -- Where the cost budget is valid and the TTL is set to text that is not a Go duration, Reconcile
  -- reads the clock, fails with the error of the parser, and does nothing else: it ensures no
  -- resource, scales and deletes nothing, and writes no status.
  reconcile_unparsed :
      (req : NamespacedName) (w : World S) (bn : BudgetNamespace) (s : S)
      → r.client.get_budget_namespace req w.server ≡ (ok bn, s)
      → validate_cost_budget_spec r bn.spec ≡ none
      → (bn.spec.ttl == "") ≡ false
      → parse_duration r.floats.fraction_of bn.spec.ttl ≡ none
      → reconcile r req w ≡ (err (ttl_error bn), record w { server = (r.client.now s).1 })
  unfolding reconcile_found reconcile_checked reconcile_valid
  reconcile_unparsed req w bn s read valid set bad =
      answered req w (ok bn) s read
      ∙ ap (λ (o : Option Error). reconcile_checked r bn o (record w { server = s })) valid
      ∙ unparsed-reconcile_at bn (r.client.now s).0 (record w { server = (r.client.now s).1 }) set
          bad

  -- Nothing was sent or emitted, and the run failed.
  abbrev pub Refused : World S → Result Error ReconcileResult × World S → Type 0
  Refused w run =
      ((e : Error) × (run.0 ≡ err e)) × (run.1.calls ≡ w.calls) × (run.1.events ≡ w.events)

  -- A cost budget that is not accepted, or a TTL that is set to text that is no Go duration.
  abbrev pub IsUnusable : BudgetNamespace → Type 0
  IsUnusable bn =
      (IsAccepted r bn.spec.cost_budget → ⊥)
      ⊎ ((bn.spec.ttl ≢ "") × (parse_duration r.floats.fraction_of bn.spec.ttl ≡ none))

  -- Where the BudgetNamespace read has a cost budget that breaks a condition of acceptance, or a
  -- TTL that is set to text that is no Go duration, Reconcile fails, sends no request and emits no
  -- event: nothing is ensured, scaled or deleted and no status is written, even where its TTL has
  -- run out.
  pub reconcile_refuses :
      (req : NamespacedName) (w : World S) (bn : BudgetNamespace) (s : S)
      → r.client.get_budget_namespace req w.server ≡ (ok bn, s)
      → IsUnusable bn
      → Refused w (reconcile r req w)
  reconcile_refuses req w bn s read unusable =
      elim (Option-cases (validate_cost_budget_spec r bn.spec)) [
        | inr (e, invalid) ↦
            subst (Refused w) (sym (reconcile_invalid req w bn s e read invalid))
              ((e, refl), refl, refl)
        | inl valid ↦ elim unusable [
          | inl refused ↦ absurd (refused ((valid_iff r bn.spec).0 valid))
          | inr (set, bad) ↦
              subst (Refused w)
                (sym (reconcile_unparsed req w bn s read valid (not_blank bn.spec.ttl set) bad))
                ((ttl_error bn, refl), refl, refl)
        ]
      ]
    where
      not_blank : (t : String) → t ≢ "" → (t == "") ≡ false
      not_blank t set = ground (arith, eq_iff t "")
