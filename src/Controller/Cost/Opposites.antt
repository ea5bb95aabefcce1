-- ===== src/Controller/Cost/Opposites.antt =====
-- The two tests of a spend against the maximum: the one that scales down, and the one that restores.
use costguard_operator.Base.{
  ◌≡◌, ◌↔◌, sym, ap, ◌∙◌, Bool, true, false, not, Bool-cases, inl, inr, arith,
}
use costguard_operator.Api.{BudgetNamespaceSpec}
use costguard_operator.Kube.{Error, Floats, Result, ok, err}
use costguard_operator.Controller.Reconciler.{Reconciler}
use costguard_operator.Controller.Cost.{
  cost_budget_enabled, cost_budget_max_usd, spend_at_or_over_max, within_cost_budget_for_restore,
}
use costguard_operator.Controller.Cost.Validation.{within_enabled}

-- IEEE 754: NaN is the value that is not `<=` itself. It compares with nothing; among the others
-- `<` is the opposite of `>=`. The sum with the small constant is NaN where the other number is.
pub record FloatLaws {F : Type 0} (floats : Floats F) : Type 0 where
  pub lt-not-le :
      (x y : F)
      → floats.le_float x x ≡ true
      → floats.le_float y y ≡ true
      → floats.lt_float x y ≡ not (floats.le_float y x)
  pub nan_left :
      (x y : F)
      → floats.le_float x x ≡ false
      → (floats.lt_float x y ≡ false) × (floats.le_float y x ≡ false)
  pub nan_right :
      (x y : F)
      → floats.le_float y y ≡ false
      → (floats.lt_float x y ≡ false) × (floats.le_float y x ≡ false)
  pub add_epsilon :
      (x : F)
      → floats.le_float (floats.add_float x floats.epsilon) (floats.add_float x floats.epsilon)
        ≡ floats.le_float x x

module _ {F Q S : Type 0} (r : Reconciler F Q S) (laws : FloatLaws r.floats) where
  compared :
      (x y : F)
      → (r.floats.lt_float x y ≡ not (r.floats.le_float y x))
        ↔ ((r.floats.le_float x x ≡ true) × (r.floats.le_float y y ≡ true))
  compared x y = elim (Bool-cases (r.floats.le_float x x)) [
    | inl x_number ↦ elim (Bool-cases (r.floats.le_float y y)) [
      | inl y_number ↦ (λ e. (x_number, y_number), λ e. laws.lt-not-le x y x_number y_number)
      | inr y_nan ↦
          let (lt, le) = laws.nan_right x y y_nan in
          (λ e. absurd (ground (arith, lt, le, e)), λ (a, b). absurd (ground (arith, b, y_nan)))
    ]
    | inr x_nan ↦
        let (lt, le) = laws.nan_left x y x_nan in
        (λ e. absurd (ground (arith, lt, le, e)), λ (a, b). absurd (ground (arith, a, x_nan)))
  ]

  abbrev value_or : Bool → Result Error Bool → Bool
  value_or d (ok b) = b
  value_or d (err e) = d

  -- For an enabled cost budget whose maximum parses, the test that restores is the opposite of the
  -- test that scales down exactly when neither the spend nor the maximum is NaN; floats compare as
  -- in IEEE 754, and a sum with the small constant is NaN only where the other number is.
  pub opposite_tests :
      (spec : BudgetNamespaceSpec) (spend m : F)
      → cost_budget_enabled spec ≡ true
      → cost_budget_max_usd r spec.cost_budget ≡ ok m
      → (within_cost_budget_for_restore r spec spend ≡ ok (not (spend_at_or_over_max r spend m)))
        ↔ ((r.floats.le_float spend spend ≡ true) × (r.floats.le_float m m ≡ true))
  unfolding spend_at_or_over_max
  opposite_tests spec spend m on known =
      let raised = r.floats.add_float spend r.floats.epsilon in
      let run = within_enabled r spec spend m on known in
      (
        λ e.
            let (a, b) = (compared raised m).0 (ap (value_or true) (sym run ∙ e)) in
            (sym (laws.add_epsilon spend) ∙ a, b),
        λ (a, b).
            run
            ∙ ap (λ (t : Bool). let x : Result Error Bool = ok t in x)
                ((compared raised m).1 (laws.add_epsilon spend ∙ a, b)),
      )
