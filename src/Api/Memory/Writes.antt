-- ===== src/Api/Memory/Writes.antt =====
-- A new address and a write, as changes of the memory.
use costguard_operator.Base.{◌+◌, ◌≤◌, ◌≡◌, refl, ◌∙◌, some, eqb, arith, if◌then◌else◌}
use costguard_operator.Api.Memory.{Ptr, Object, Memory}
use costguard_operator.Api.Memory.Copying.{Grown}

module _ {ObjectMeta ListMeta : Type 0} where
  unfoldable pub bumped : Memory ObjectMeta ListMeta → Memory ObjectMeta ListMeta
  bumped h = record h { next = h.next + 1 }

  unfoldable pub written :
      Ptr → Object ObjectMeta ListMeta → Memory ObjectMeta ListMeta → Memory ObjectMeta ListMeta
  written q x h = record h { cell = λ a. if eqb a q then some x else h.cell a }

  pub written_self :
      (q : Ptr) (x : Object ObjectMeta ListMeta) (h : Memory ObjectMeta ListMeta)
      → (written q x h).cell q ≡ some x
  unfolding written
  written_self q x h = ground arith

  pub written_other :
      (q a : Ptr) (x : Object ObjectMeta ListMeta) (h : Memory ObjectMeta ListMeta)
      → (a ≡ q → ⊥)
      → (written q x h).cell a ≡ h.cell a
  unfolding written
  written_other q a x h differs = ground arith

  -- A write at an address that was free before is growth.
  pub Grown-written :
      {h h2 : Memory ObjectMeta ListMeta} (q : Ptr) (x : Object ObjectMeta ListMeta)
      → h.next ≤ q
      → Grown h h2
      → Grown h (written q x h2)
  unfolding written
  Grown-written {h} {h2} q x free g = record {
    extended = g.extended;
    kept = λ a lo hi.
        written_other q a x h2 (λ e. absurd (omega (arith, e, hi, free))) ∙ g.kept a lo hi;
  }

  pub Grown-bumped : (h : Memory ObjectMeta ListMeta) → Grown h (bumped h)
  unfolding bumped
  Grown-bumped h = record { extended = omega arith; kept = λ a lo hi. refl }
