-- ===== src/Controller/Quota/Laws.antt =====
-- When a quota is at its limit, and when enforcement is on.
use costguard_operator.Base.{
  String, ◌≡◌, refl, ◌↔◌, ◌⊎◌, inl, inr, true, [], ◌∷◌, some, Map, lookup, arith, if◌then◌else◌,
  Option-cases, Bool-cases, sym, pos, ◌≤ℤ◌, eq_iff,
}
use mathlib.Core.List.{Memᴰ, Perm, Permᴰ}
use mathlib.Core.Bool.{Bool, Bool-set}
use mathlib.Core.Path.{ap₂, ◌∙◌}
use mathlib.Core.Logic.{∥∥₁_elim}
use costguard_operator.Api.{BudgetNamespaceSpec}
use costguard_operator.Kube.{Quantities, ResourceQuota}
use costguard_operator.Controller.Quota.{
  is_at_limit, any_at_limit, quota_used_at_or_over_hard, should_scale_deployments_to_zero,
}

module _ {Q : Type 0} (quantities : Quantities Q) where
  -- A resource with a hard limit whose used quantity is reported and is at the limit or above it.
  pub record LimitReached (rq : ResourceQuota Q) : Type 0 where
    pub resource : String
    pub hard_quantity : Q
    pub used_quantity : Q
    pub is_limited : Memᴰ (resource, hard_quantity) rq.hard
    pub is_used : lookup resource rq.used ≡ some used_quantity
    pub at_or_over : pos 0 ≤ℤ quantities.cmp used_quantity hard_quantity

  limit_found :
      (used : Map Q) (name : String) (hard : Q)
      → is_at_limit quantities hard (lookup name used) ≡ true
      → (u : Q) × (lookup name used ≡ some u) × (pos 0 ≤ℤ quantities.cmp u hard)
  limit_found used name hard e = elim (Option-cases (lookup name used)) [
    | inl missing ↦ absurd (ground arith)
    | inr (u, found) ↦ (u, found, ground arith)
  ]

  any_at_limit_sound :
      (used : Map Q) (entries : Map Q)
      → any_at_limit quantities used entries ≡ true
      → (name : String) × (hard : Q) × (u : Q) × Memᴰ (name, hard) entries
        × (lookup name used ≡ some u)
        × (pos 0 ≤ℤ quantities.cmp u hard)
  unfolding any_at_limit
  any_at_limit_sound used [] e = absurd (ground arith)
  any_at_limit_sound used ((name, hard) ∷ rest) e =
      elim (Bool-cases (is_at_limit quantities hard (lookup name used))) [
        | inl here ↦
            let (u, found, over) = limit_found used name hard here in
            (name, hard, u, Memᴰ.head refl, found, over)
        | inr elsewhere ↦
            let (j, h, u, m, found, over) = any_at_limit_sound used rest (ground arith) in
            (j, h, u, Memᴰ.tail m, found, over)
      ]

  any_at_limit_complete :
      (used : Map Q) {name : String} {hard : Q} (u : Q) (entries : Map Q)
      → Memᴰ (name, hard) entries
      → lookup name used ≡ some u
      → pos 0 ≤ℤ quantities.cmp u hard
      → any_at_limit quantities used entries ≡ true
  unfolding any_at_limit
  any_at_limit_complete used u [] m found over = elim m [ ]
  any_at_limit_complete used u ((j, h) ∷ rest) (Memᴰ.head e) found over = ground arith
  any_at_limit_complete used u ((j, h) ∷ rest) (Memᴰ.tail m) found over =
      ground (arith, any_at_limit_complete used u rest m found over)

  -- The check answers true exactly when some resource is at its limit or above it. A resource whose
  -- use is not reported does not count.
  pub at_limit_iff :
      (rq : ResourceQuota Q)
      → (quota_used_at_or_over_hard quantities rq ≡ true → LimitReached rq)
        × (LimitReached rq → quota_used_at_or_over_hard quantities rq ≡ true)
  unfolding quota_used_at_or_over_hard
  at_limit_iff rq = (
    λ e.
        let (j, h, u, m, found, over) = any_at_limit_sound rq.used rq.hard e in
        record {
          resource = j;
          hard_quantity = h;
          used_quantity = u;
          is_limited = m;
          is_used = found;
          at_or_over = over;
        },
    λ a. any_at_limit_complete rq.used a.used_quantity rq.hard a.is_limited a.is_used a.at_or_over,
  )

  swapped :
      (used : Map Q) (a b : String × Q) (l : Map Q)
      → any_at_limit quantities used (a ∷ b ∷ l) ≡ any_at_limit quantities used (b ∷ a ∷ l)
  unfolding any_at_limit
  swapped used a b l = ground arith

  permuted :
      (used : Map Q) {xs ys : Map Q}
      → Permᴰ xs ys
      → any_at_limit quantities used xs ≡ any_at_limit quantities used ys
  unfolding any_at_limit
  permuted used Permᴰ.nil = refl
  permuted used (Permᴰ.cons e p) =
      ap₂
        (λ (entry : String × Q) (later : Bool).
          if is_at_limit quantities entry.1 (lookup entry.0 used) then true else later)
        e (permuted used p)
  permuted used (Permᴰ.swap {a = a} {b = b} {l = l} e₁ e₂) =
      swapped used a b l
      ∙ ap₂ (λ (x y : String × Q). any_at_limit quantities used (x ∷ y ∷ l)) e₂ e₁
  permuted used (Permᴰ.trans p q) = permuted used p ∙ permuted used q

  -- Go ranges over a map in any order: the order of the hard limits does not change the answer.
  any_order :
      (rq : ResourceQuota Q) (hard : Map Q)
      → Perm rq.hard hard
      → quota_used_at_or_over_hard quantities (record rq { hard = hard })
        ≡ quota_used_at_or_over_hard quantities rq
  unfolding quota_used_at_or_over_hard
  any_order rq hard p = ∥∥₁_elim p (Bool-set _ _) (λ q. sym (permuted rq.used q))

-- Enforcement is on exactly when it is enabled and its action is ScaleToZero or left out.
pub enforcement_on_iff :
    (spec : BudgetNamespaceSpec)
    → (should_scale_deployments_to_zero spec ≡ true) ↔ (
        (spec.enforcement.enabled ≡ true)
        × ((spec.enforcement.action ≡ "") ⊎ (spec.enforcement.action ≡ "ScaleToZero")))
unfolding should_scale_deployments_to_zero
enforcement_on_iff spec = (
  ground (
    arith,
    eq_iff spec.enforcement.action "",
    eq_iff spec.enforcement.action "ScaleToZero",
    eq_iff spec.enforcement.action "None",
    eq_iff "" "None",
    eq_iff "ScaleToZero" "None",
  ),
  ground (
    arith,
    eq_iff spec.enforcement.action "",
    eq_iff spec.enforcement.action "ScaleToZero",
    eq_iff spec.enforcement.action "None",
    eq_iff "" "None",
    eq_iff "ScaleToZero" "None",
  ),
)
