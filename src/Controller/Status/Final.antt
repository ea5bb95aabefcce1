-- ===== src/Controller/Status/Final.antt =====
-- The conditions of the status that a reconciliation writes, by what SetStatusCondition documents.
use costguard_operator.Base.{
  ap, eq_iff, inl, inr, Bool-cases, ◌≡◌, refl, sym, ◌∙◌, subst, String, Bool, true, false, List, [],
  ◌∷◌, ◌++◌, Option, none, some, map, ◌==◌, if◌then◌else◌,
}
use mathlib.Core.Path.{ap₂}
use costguard_operator.Api.{Condition}
use costguard_operator.Controller.Reconciler.{
  Reconciler, condition_type_expired, condition_type_over_budget,
  condition_type_enforcement_recovery_deferred, condition_type_ready,
}
use costguard_operator.Controller.Ttl.{Ttl}
use costguard_operator.Controller.Enforce.{Progress}
use costguard_operator.Controller.Status.{new_conditions, set_conditions, with_new_status}
use costguard_operator.Controller.Status.Laws.{leaves_over_budget, condition_types}

-- FindStatusCondition: the first condition of a type.
unfoldable pub find_condition : String → List Condition → Option Condition
find_condition t [] = none
find_condition t (c ∷ cs) =
    let rest = find_condition t cs in if c.condition_type == t then some c else rest

-- SetStatusCondition documents that it leaves the condition as the one of its type, and the others
-- as they were.
pub record SetsConditions {S : Type 0} (set : S → List Condition → Condition → List Condition)
    : Type 0 where
  pub is_set :
      (s : S) (cs : List Condition) (c : Condition)
      → find_condition c.condition_type (set s cs c) ≡ some c
  pub keeps_others :
      (s : S) (cs : List Condition) (c : Condition) (t : String)
      → (c.condition_type == t) ≡ false
      → find_condition t (set s cs c) ≡ find_condition t cs

-- None of the types is `t`.
abbrev pub Absent : String → List String → Type 0
Absent t [] = Unit
Absent t (u ∷ us) = ((u == t) ≡ false) × Absent t us

abbrev Distinct : List String → Type 0
Distinct [] = Unit
Distinct (t ∷ us) = Absent t us × Distinct us

abbrev pub types : List Condition → List String
types cs = map (λ (c : Condition). c.condition_type) cs

no_type_twice :
    (no_ttl left : Bool)
    → Distinct (
        (if no_ttl then [] else condition_type_expired ∷ [])
        ++ ((if left then [] else condition_type_over_budget ∷ [])
            ++ (condition_type_enforcement_recovery_deferred ∷ condition_type_ready ∷ [])))
no_type_twice true true = ((refl, tt), (tt, tt))
no_type_twice true false = ((refl, (refl, tt)), ((refl, tt), (tt, tt)))
no_type_twice false true = ((refl, (refl, tt)), ((refl, tt), (tt, tt)))
no_type_twice false false =
    ((refl, (refl, (refl, tt))), ((refl, (refl, tt)), ((refl, tt), (tt, tt))))

new_conditions-Distinct : (p : Progress) (ttl : Ttl) → Distinct (types (new_conditions p ttl))
new_conditions-Distinct p ttl =
    subst Distinct (sym (condition_types p ttl))
      (no_type_twice (p.budget_namespace.spec.ttl == "") (leaves_over_budget p ttl))

no_such_condition :
    (t : String) (cs : List Condition) → Absent t (types cs) → find_condition t cs ≡ none
unfolding find_condition
no_such_condition t [] h = refl
no_such_condition t (c ∷ cs) (differs, h) =
    ap (λ (b : Bool). if b then some c else find_condition t cs) differs ∙ no_such_condition t cs h

-- The first of two answers.
abbrev pub or_else : Option Condition → Option Condition → Option Condition
or_else none second = second
or_else (some c) second = some c

module _ {F Q S : Type 0} (r : Reconciler F Q S)
    (laws : SetsConditions r.client.set_status_condition) (s : S) where
  found_after :
      (cs old : List Condition) (t : String)
      → Distinct (types cs)
      → find_condition t (set_conditions r s old cs)
        ≡ or_else (find_condition t cs) (find_condition t old)
  unfolding set_conditions find_condition
  found_after [] old t h = refl
  found_after (c ∷ cs) old t (absent, h) =
      found_after cs (r.client.set_status_condition s old c) t h
      ∙ elim (Bool-cases (c.condition_type == t)) [
        | inl same ↦
            let is_t = (eq_iff c.condition_type t).0 same in
            ap₂ or_else
              (no_such_condition t cs (subst (λ (u : String). Absent u (types cs)) is_t absent))
              (subst
                (λ (u : String). find_condition u (r.client.set_status_condition s old c) ≡ some c)
                is_t (laws.is_set s old c))
            ∙ sym (
                ap
                  (λ (b : Bool).
                    or_else (if b then some c else find_condition t cs) (find_condition t old))
                  same)
        | inr differs ↦
            ap (or_else (find_condition t cs)) (laws.keeps_others s old c t differs)
            ∙ sym (
                ap
                  (λ (b : Bool).
                    or_else (if b then some c else find_condition t cs) (find_condition t old))
                  differs)
      ]

  -- In the status that Reconcile writes the condition of any type is the one that the reconciliation
  -- computed for it, and where it computed none, the one that was read; SetStatusCondition does
  -- what it documents.
  pub final_conditions :
      (p : Progress) (ttl : Ttl) (t : String)
      → find_condition t (with_new_status r s p ttl).status.conditions
        ≡ or_else
            (find_condition t (new_conditions p ttl))
            (find_condition t p.budget_namespace.status.conditions)
  unfolding with_new_status
  final_conditions p ttl t =
      found_after (new_conditions p ttl) p.budget_namespace.status.conditions t
        (new_conditions-Distinct p ttl)
