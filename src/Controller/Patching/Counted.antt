-- ===== src/Controller/Patching/Counted.antt =====
-- The count of a scale-down or of a restore.
use costguard_operator.Base.{
  ℕ, ◌+◌, ◌≡◌, ap, ◌∙◌, subst, ◌⊎◌, inl, inr, String, List, [], ◌∷◌, ◌++◌, Option, some, length,
  arith,
}
use mathlib.Core.List.{append-nil, append_assoc}
use costguard_operator.Kube.{Error, Result, Kind, deployment, stateful_set, Workload}
use costguard_operator.Kube.Action.{Call, patch, World, Action, pure, ◌>>=◌}
use costguard_operator.Kube.Action.Emits.{Grows, Grows-trans}
use costguard_operator.Kube.Action.OnOk.{OnOk, OnOk-bind, OnOk-pure}
use costguard_operator.Controller.Reconciler.{Reconciler}
use costguard_operator.Controller.Patching.{list_workloads, patch_items}
use costguard_operator.Controller.Patching.Trace.{
  planned, HasPatch, nothing_or_patch, Ran, patch_items-Ran, patch_items-Emits,
  list_workloads-Emits,
}

-- A workload was patched in between.
abbrev pub Patched : List Call → List Call → Type 0
Patched before after = (new : List Call) × (after ≡ before ++ new) × HasPatch new

HasPatch-left : (xs ys : List Call) → HasPatch xs → HasPatch (xs ++ ys)
HasPatch-left [] ys h = absurd h
HasPatch-left (x ∷ xs) ys (inl h) = inl h
HasPatch-left (x ∷ xs) ys (inr h) = inr (HasPatch-left xs ys h)

HasPatch-right : (xs ys : List Call) → HasPatch ys → HasPatch (xs ++ ys)
HasPatch-right [] ys h = h
HasPatch-right (x ∷ xs) ys h = inr (HasPatch-right xs ys h)

pub Patched-left : (P : Call → Type 0) (a b c : List Call) → Patched a b → Grows P b c → Patched a c
Patched-left P a b c (new, p, h) (more, q, k) =
    (new ++ more, q ∙ ap (λ l. l ++ more) p ∙ append_assoc a new more, HasPatch-left new more h)

pub Patched-right :
    (P : Call → Type 0) (a b c : List Call) → Grows P a b → Patched b c → Patched a c
Patched-right P a b c (new, p, k) (more, q, h) =
    (new ++ more, q ∙ ap (λ l. l ++ more) p ∙ append_assoc a new more, HasPatch-right new more h)

-- What was sent by then satisfies `P`. Nothing was sent and the count is zero, or a workload was
-- patched and it is not.
abbrev pub Counted : (Call → Type 0) → List Call → ℕ → List Call → Type 0
Counted P before n after =
    Grows P before after × (((n ≡ 0) × (after ≡ before)) ⊎ ((n ≡ 0 → ⊥) × Patched before after))

nothing_sent : (before after : List Call) → Grows (λ c. ⊥) before after → after ≡ before
nothing_sent before after ([], e, h) = e ∙ append-nil before
nothing_sent before after (c ∷ new, e, (h, hs)) = absurd h

planned_or_none :
    (before plan after : List Call) (n : ℕ)
    → after ≡ before ++ plan
    → n ≡ 0 + length plan
    → (plan ≡ []) ⊎ HasPatch plan
    → ((n ≡ 0) × (after ≡ before)) ⊎ ((n ≡ 0 → ⊥) × Patched before after)
planned_or_none before [] after n e count h = inl (count, e ∙ append-nil before)
planned_or_none before (c ∷ plan) after n e count (inl none) = absurd cc
planned_or_none before (c ∷ plan) after n e count (inr h) =
    inr (λ zero. omega (arith, count, zero), (c ∷ plan, e, h))

-- Two counts are added.
added :
    (P : Call → Type 0) (a b c : List Call) (n m : ℕ)
    → Counted P a n b
    → Counted P b m c
    → Counted P a (n + m) c
added P a b c n m (sent, inl (zero, same)) (more, inl (none, kept)) =
    (Grows-trans P a b c sent more, inl (omega (arith, zero, none), kept ∙ same))
added P a b c n m (sent, inl (zero, same)) (more, inr (some_sent, patched)) = (
  Grows-trans P a b c sent more,
  inr (λ e. some_sent (omega (arith, e)), Patched-right P a b c sent patched),
)
added P a b c n m (sent, inr (some_sent, patched)) (more, rest) = (
  Grows-trans P a b c sent more,
  inr (λ e. some_sent (omega (arith, e)), Patched-left P a b c patched more),
)

module _ {F Q S : Type 0} (r : Reconciler F Q S) (change : Workload → Option Workload)
    (context : Kind → String) (namespace : String) (P : Call → Type 0)
    (lawful : (kind : Kind) (w w' : Workload)
      → change w ≡ some w'
      → P (patch kind namespace w w')) where
  items-Counted :
      (kind : Kind) (items : List Workload) (w : World S)
      → OnOk
          (λ n w'. Counted P w.calls n w'.calls)
          (patch_items r change (context kind) kind namespace 0 items)
          w
  items-Counted kind items w = record {
    of_run = λ w' n e.
        let ran =
          subst
            (λ (p : Result Error ℕ × World S).
              Ran w.calls (planned change kind namespace items) 0 p.0 p.1.calls)
            e (patch_items-Ran r change (context kind) kind namespace 0 items w) in
        (
          subst (λ (p : Result Error ℕ × World S). Grows P w.calls p.1.calls) e
              ((patch_items-Emits r change (context kind) kind namespace P (lawful kind) 0 items).at
                w),
          planned_or_none w.calls (planned change kind namespace items) w'.calls n ran.0 ran.1
              (nothing_or_patch change kind namespace items),
        );
  }

  abbrev pub one : Kind → Action S ℕ
  one kind = list_workloads r kind namespace >>= λ items.
      patch_items r change (context kind) kind namespace 0 items

  one-Counted :
      (kind : Kind) (w : World S) → OnOk (λ n w'. Counted P w.calls n w'.calls) (one kind) w
  one-Counted kind w =
      OnOk-bind (λ items w1. w1.calls ≡ w.calls) (λ n w'. Counted P w.calls n w'.calls)
        (list_workloads r kind namespace)
        (λ items. patch_items r change (context kind) kind namespace 0 items) w
        (record {
          of_run = λ w1 items e. nothing_sent w.calls w1.calls (
              subst
                (λ (p : Result Error (List Workload) × World S). Grows (λ c. ⊥) w.calls p.1.calls) e
                ((list_workloads-Emits r (λ c. ⊥) kind namespace).at w));
        })
        (λ items w1 same.
          subst
            (λ (calls : List Call).
              OnOk (λ n w'. Counted P calls n w'.calls)
                (patch_items r change (context kind) kind namespace 0 items) w1)
            same (items-Counted kind items w1))

  pub both-Counted :
      (w : World S)
      → OnOk
          (λ n w'. Counted P w.calls n w'.calls)
          (one deployment >>= λ n₁. one stateful_set >>= λ n₂. pure (n₁ + n₂))
          w
  both-Counted w =
      OnOk-bind (λ n w1. Counted P w.calls n w1.calls) (λ n w'. Counted P w.calls n w'.calls)
        (one deployment) (λ n₁. one stateful_set >>= λ n₂. pure (n₁ + n₂)) w
        (one-Counted deployment w)
        (λ n₁ w1 first.
          OnOk-bind (λ n w2. Counted P w1.calls n w2.calls) (λ n w'. Counted P w.calls n w'.calls)
            (one stateful_set) (λ n₂. pure (n₁ + n₂)) w1 (one-Counted stateful_set w1)
            (λ n₂ w2 then.
              OnOk-pure (λ n w'. Counted P w.calls n w'.calls) (n₁ + n₂) w2
                (added P w.calls w1.calls w2.calls n₁ n₂ first then)))
