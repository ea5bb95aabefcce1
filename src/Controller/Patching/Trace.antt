-- ===== src/Controller/Patching/Trace.antt =====
-- The requests that a patching loop sends.
use costguard_operator.Base.{
  ℕ, ◌+◌, ◌≡◌, ◌≢◌, refl, sym, ap, ◌∙◌, inl, inr, ◌⊎◌, String, List, [], ◌∷◌, ◌++◌, Option, none,
  some, length, arith, Option-cases,
}
use mathlib.Core.Path.{subst, subst₂}
use mathlib.Core.List.{append_assoc, append-nil}
use costguard_operator.Kube.{ApiError, Error, Result, ok, err, Kind, Workload, api_error, wrap}
use costguard_operator.Kube.Action.{Call, patch, World, Action, ◌>>=◌, checked}
use costguard_operator.Kube.Action.Emits.{Emits, Emits-bind, Emits-pure, emits_rules}
use costguard_operator.Kube.Action.Run.{bind_ok, bind_err}
use costguard_operator.Controller.Reconciler.{Reconciler}
use costguard_operator.Controller.Patching.{list_workloads, patch_workload, patch_items}

module _ (change : Workload → Option Workload) (kind : Kind) (namespace : String) where
  -- The patches that the loop means to send for these workloads, in order.
  unfoldable pub planned : List Workload → List Call
  planned [] = []
  planned (w ∷ ws) = elim (change w) [
    | none ↦ planned ws
    | some w' ↦ patch kind namespace w w' ∷ planned ws
  ]

  planned_skip :
      (w : Workload) (ws : List Workload) → change w ≡ none → planned (w ∷ ws) ≡ planned ws
  unfolding planned
  planned_skip w ws e = rw (e, planned)

  planned_hit :
      (w w' : Workload) (ws : List Workload)
      → change w ≡ some w'
      → planned (w ∷ ws) ≡ patch kind namespace w w' ∷ planned ws
  unfolding planned
  planned_hit w w' ws e = rw (e, planned)

-- A request that patches a workload is among these.
abbrev pub IsPatch : Call → Type 0
IsPatch (patch kind namespace w w') = Unit
IsPatch _ = ⊥

abbrev pub HasPatch : List Call → Type 0
HasPatch [] = ⊥
HasPatch (c ∷ cs) = IsPatch c ⊎ HasPatch cs

pub nothing_or_patch :
    (change : Workload → Option Workload) (kind : Kind) (namespace : String) (ws : List Workload)
    → (planned change kind namespace ws ≡ []) ⊎ HasPatch (planned change kind namespace ws)
unfolding planned
nothing_or_patch change kind namespace [] = inl refl
nothing_or_patch change kind namespace (w ∷ ws) = elim (Option-cases (change w)) [
  | inl skip ↦
      subst (λ (l : List Call). (l ≡ []) ⊎ HasPatch l)
        (sym (planned_skip change kind namespace w ws skip))
        (nothing_or_patch change kind namespace ws)
  | inr (w', hit) ↦
      subst (λ (l : List Call). (l ≡ []) ⊎ HasPatch l)
        (sym (planned_hit change kind namespace w w' ws hit)) (inr (inl tt))
]

-- How a loop ended: all of the plan was sent and counted, or a first part of it, the last request
-- of which failed.
abbrev pub Ran : List Call → List Call → ℕ → Result Error ℕ → List Call → Type 0
Ran before plan n (ok m) after = (after ≡ before ++ plan) × (m ≡ n + length plan)
Ran before plan n (err e) after =
    (sent rest : List Call) × (plan ≡ sent ++ rest) × (sent ≢ []) × (after ≡ before ++ sent)

cons-ne-nil : (c : Call) (cs : List Call) → (c ∷ cs) ≢ []
cons-ne-nil c cs e = cc

Ran-cons :
    (before plan : List Call) (c : Call) (n : ℕ) (q : Result Error ℕ) (after : List Call)
    → Ran (before ++ c ∷ []) plan (n + 1) q after
    → Ran before (c ∷ plan) n q after
Ran-cons before plan c n (ok m) after (sent, count) =
    (sent ∙ append_assoc before (c ∷ []) plan, omega arith)
Ran-cons before plan c n (err e) after (sent, rest, split, some_sent, shown) = (
  c ∷ sent,
  rest,
  ap (λ l. c ∷ l) split,
  cons-ne-nil c sent,
  shown ∙ append_assoc before (c ∷ []) sent,
)

module _ {F Q S : Type 0} (r : Reconciler F Q S) (change : Workload → Option Workload)
    (context : String) (kind : Kind) (namespace : String) where
  unfoldable pub loop : ℕ → List Workload → Action S ℕ
  loop = patch_items r change context kind namespace

  pub loop_skip :
      (n : ℕ) (w : Workload) (ws : List Workload) → change w ≡ none → loop n (w ∷ ws) ≡ loop n ws
  unfolding patch_items loop
  loop_skip n w ws e = rw (e, patch_items)

  pub loop_hit :
      (n : ℕ) (w w' : Workload) (ws : List Workload)
      → change w ≡ some w'
      → loop n (w ∷ ws) ≡ (patch_workload r context kind namespace w w' >>= λ _. loop (n + 1) ws)
  unfolding patch_items loop
  loop_hit n w w' ws e = rw (e, patch_items)

  -- One request, and its two outcomes.
  pub patch_workload_outcome :
      (w w' : Workload) (x : World S) (answer : Result ApiError (Unit {0})) (s : S)
      → r.client.patch_workload kind namespace w w' x.server ≡ (answer, s)
      → patch_workload r context kind namespace w w' x
        ≡ checked
            (λ e. wrap context (api_error e))
            answer
            (record x { server = s; calls = x.calls ++ patch kind namespace w w' ∷ [] })
  unfolding patch_workload
  patch_workload_outcome w w' x answer s e =
      ap
        (λ (p : Result ApiError (Unit {0}) × S).
          checked (λ e. wrap context (api_error e)) p.0
            (record x { server = p.1; calls = x.calls ++ patch kind namespace w w' ∷ [] }))
        e

  abbrev RanTo : List Call → List Call → ℕ → Result Error ℕ × World S → Type 0
  RanTo before plan n p = Ran before plan n p.0 p.1.calls

  after_patch :
      (w w' : Workload) (ws : List Workload) (n : ℕ) (x : World S)
      → ((y : World S)
          → RanTo y.calls (planned change kind namespace ws) (n + 1) (loop (n + 1) ws y))
      → (answer : Result ApiError (Unit {0})) (s : S)
      → r.client.patch_workload kind namespace w w' x.server ≡ (answer, s)
      → RanTo x.calls
          (patch kind namespace w w' ∷ planned change kind namespace ws)
          n
          ((patch_workload r context kind namespace w w' >>= λ _. loop (n + 1) ws) x)
  after_patch w w' ws n x ih (ok a) s e =
      let plan = planned change kind namespace ws in
      let call = patch kind namespace w w' in
      let y : World S = record x { server = s; calls = x.calls ++ call ∷ [] } in
      subst (RanTo x.calls (call ∷ plan) n)
        (sym (
          bind_ok (patch_workload r context kind namespace w w') (λ _. loop (n + 1) ws) x a y
            (patch_workload_outcome w w' x (ok a) s e)))
        (Ran-cons x.calls plan call n (loop (n + 1) ws y).0 (loop (n + 1) ws y).1.calls (ih y))
  after_patch w w' ws n x ih (err a) s e =
      let plan = planned change kind namespace ws in
      let call = patch kind namespace w w' in
      let y : World S = record x { server = s; calls = x.calls ++ call ∷ [] } in
      subst (RanTo x.calls (call ∷ plan) n)
        (sym (
          bind_err (patch_workload r context kind namespace w w') (λ _. loop (n + 1) ws) x
            (wrap context (api_error a)) y (patch_workload_outcome w w' x (err a) s e)))
        (call ∷ [], plan, refl, cons-ne-nil call [], refl)

  loop-Ran :
      (n : ℕ) (ws : List Workload) (x : World S)
      → RanTo x.calls (planned change kind namespace ws) n (loop n ws x)
  unfolding loop patch_items planned
  loop-Ran n [] x = (sym (append-nil x.calls), omega arith)
  loop-Ran n (w ∷ ws) x = elim (Option-cases (change w)) [
    | inl skip ↦
        subst₂ (λ (l : List Call) (m : Action S ℕ). RanTo x.calls l n (m x))
          (sym (planned_skip change kind namespace w ws skip)) (sym (loop_skip n w ws skip))
          (loop-Ran n ws x)
    | inr (w', hit) ↦
        subst₂ (λ (l : List Call) (m : Action S ℕ). RanTo x.calls l n (m x))
          (sym (planned_hit change kind namespace w w' ws hit)) (sym (loop_hit n w w' ws hit))
          (after_patch w w' ws n x (λ y. loop-Ran (n + 1) ws y) _ _ refl)
  ]

  -- Whatever the server answers, the loop either succeeds, having sent one patch for each workload
  -- that a round changes, in order, with the count raised by their number, or fails, having sent a
  -- first part of them that is not empty.
  pub patch_items-Ran :
      (n : ℕ) (ws : List Workload) (x : World S)
      → let (q, z) = patch_items r change context kind namespace n ws x in
        Ran x.calls (planned change kind namespace ws) n q z.calls
  unfolding loop
  patch_items-Ran = loop-Ran

  -- The loop sends patches of workloads that a round changes, and nothing else.
  loop-Emits :
      (P : Call → Type 0)
      → ((w w' : Workload) → change w ≡ some w' → P (patch kind namespace w w'))
      → (n : ℕ) (ws : List Workload) → Emits P (loop n ws)
  unfolding loop patch_items
  loop-Emits P h n [] = Emits-pure n
  loop-Emits P h n (w ∷ ws) = elim (Option-cases (change w)) [
    | inl skip ↦
        subst (λ (m : Action S ℕ). Emits P m) (sym (loop_skip n w ws skip)) (loop-Emits P h n ws)
    | inr (w', hit) ↦
        subst (λ (m : Action S ℕ). Emits P m) (sym (loop_hit n w w' ws hit))
          (Emits-bind (patch_workload r context kind namespace w w') (λ _. loop (n + 1) ws)
            (patch_workload-Emits w w' (h w w' hit)) (λ _. loop-Emits P h (n + 1) ws))
  ]
    where
      patch_workload-Emits :
          (o m : Workload)
          → P (patch kind namespace o m)
          → Emits P (patch_workload r context kind namespace o m)
      patch_workload-Emits o m p = unfold patch_workload in search (emits_rules, p)

  pub patch_items-Emits :
      (P : Call → Type 0)
      → ((w w' : Workload) → change w ≡ some w' → P (patch kind namespace w w'))
      → (n : ℕ) (ws : List Workload) → Emits P (patch_items r change context kind namespace n ws)
  unfolding loop
  patch_items-Emits = loop-Emits

module _ {F Q S : Type 0} (r : Reconciler F Q S) where
  pub list_workloads-Emits :
      (P : Call → Type 0) (kind : Kind) (namespace : String)
      → Emits P (list_workloads r kind namespace)
  unfolding list_workloads
  list_workloads-Emits P kind namespace = search emits_rules
