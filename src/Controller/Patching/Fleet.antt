-- ===== src/Controller/Patching/Fleet.antt =====
-- A sweep over the Deployments of a namespace and one over its StatefulSets, one after the other.
use costguard_operator.Base.{
  ℕ, ◌+◌, ◌≡◌, refl, sym, subst, ap, ◌∙◌, String, Bool, false, List, [], ◌++◌, map, Option, some,
  ◌==◌, ◌&&◌, arith,
}
use mathlib.Core.List.{append-nil}
use costguard_operator.Kube.{
  Client, Error, Result, ok, err, Kind, deployment, stateful_set, Workload,
}
use costguard_operator.Kube.Server.{WorkloadServer, same_kind}
use costguard_operator.Kube.Action.{World, Action, pure, ◌>>=◌}
use costguard_operator.Kube.Action.Run.{Outcome, done, failed, outcome, bind_ok, bind_err}
use costguard_operator.Controller.Reconciler.{Reconciler}
use costguard_operator.Controller.Patching.Store.{made, changed, sweep, Swept, sweep-Swept}

-- A first part of the workloads of a kind is changed and the rest is as it was.
pub record Partly (change : Workload → Option Workload) (before after : List Workload)
    : Type 0 where
  pub finished : List Workload
  pub rest : List Workload
  pub split : before ≡ finished ++ rest
  pub now : after ≡ map (made change) finished ++ rest

module _ {Q S : Type 0} {client : Client Q S} (server : WorkloadServer client)
    (namespace : String) where
  -- A namespace before and after: a success changes every workload of both kinds and counts those
  -- that needed it; a failure, a first part of each.
  abbrev pub FleetSwept : (Workload → Option Workload) → S → Result Error ℕ → S → Type 0
  FleetSwept change s (ok n) s' =
      ((kind : Kind)
        → server.stored s' kind namespace ≡ map (made change) (server.stored s kind namespace))
      × (n
          ≡ changed change (server.stored s deployment namespace)
            + changed change (server.stored s stateful_set namespace))
  FleetSwept change s (err e) s' =
      (kind : Kind)
      → Partly change (server.stored s kind namespace) (server.stored s' kind namespace)

  -- No other namespace is touched.
  abbrev pub OtherNamespaces : S → S → Type 0
  OtherNamespaces s s' =
      (k : Kind) (m : String)
      → (namespace == m) ≡ false
      → server.stored s' k m ≡ server.stored s k m

module _ {F Q S : Type 0} (r : Reconciler F Q S) (server : WorkloadServer r.client)
    (change : Workload → Option Workload) (context : Kind → String) (namespace : String)
    (named : (w w' : Workload) → change w ≡ some w' → w'.name ≡ w.name) where
  abbrev fleet : S → Kind → List Workload
  fleet s kind = server.stored s kind namespace

  abbrev pub Outcomes : S → Result Error ℕ × World S → Type 0
  Outcomes s p =
      FleetSwept server namespace change s p.0 p.1.server
      × OtherNamespaces server namespace s p.1.server

  abbrev one : Kind → Action S ℕ
  one kind = sweep r server change (context kind) kind namespace named

  unfoldable pub both : Action S ℕ
  unfolding sweep
  both = do n₁ ← one deployment; n₂ ← one stateful_set; pure (n₁ + n₂)

  loop_outcome :
      (kind : Kind) (x y : World S) (q : Result Error ℕ)
      → one kind x ≡ (q, y)
      → Swept r server change (context kind) kind namespace named x.server q y.server
  loop_outcome kind x y q e =
      subst
        (λ (p : Result Error ℕ × World S).
          Swept r server change (context kind) kind namespace named x.server p.0 p.1.server)
        e (sweep-Swept r server change (context kind) kind namespace named x)

  not_here : (b c : Bool) → c ≡ false → (b && c) ≡ false
  not_here b c h = ground arith

  whole :
      (before after : List Workload) → after ≡ map (made change) before → Partly change before after
  whole before after e = record {
    finished = before;
    rest = [];
    split = sym (append-nil before);
    now = e ∙ sym (append-nil (map (made change) before));
  }

  untouched : (before after : List Workload) → after ≡ before → Partly change before after
  untouched before after e = record { finished = []; rest = before; split = refl; now = e }

  second :
      (x y : World S) (a : ℕ)
      → Swept r server change
          (context deployment)
          deployment
          namespace
          named
          x.server
          (ok a)
          y.server
      → Outcome (one stateful_set) y
      → Outcomes x.server ((one stateful_set >>= λ n₂. pure (a + n₂)) y)
  second x y a ((deployed, counted), elsewhere) (done b z p) =
      let ((stopped, also), beside) = loop_outcome stateful_set y z (ok b) p in
      let same = elsewhere stateful_set namespace refl in
      subst (Outcomes x.server) (sym (bind_ok (one stateful_set) (λ n₂. pure (a + n₂)) y b z p)) (
        (
          λ kind. elim kind as (λ k. fleet z.server k ≡ map (made change) (fleet x.server k)) [
            | deployment ↦ beside deployment namespace refl ∙ deployed
            | stateful_set ↦ stopped ∙ ap (map (made change)) same
          ],
          omega (arith, counted, also, ap (changed change) same),
        ),
        λ k m differs.
            beside k m (not_here (same_kind stateful_set k) (namespace == m) differs)
            ∙ elsewhere k m (not_here (same_kind deployment k) (namespace == m) differs),
      )
  second x y a ((deployed, counted), elsewhere) (failed e z p) =
      let ((finished, rest, split, now), beside) = loop_outcome stateful_set y z (err e) p in
      let same = elsewhere stateful_set namespace refl in
      subst (Outcomes x.server) (sym (bind_err (one stateful_set) (λ n₂. pure (a + n₂)) y e z p)) (
        λ kind. elim kind as (λ k. Partly change (fleet x.server k) (fleet z.server k)) [
          | deployment ↦ whole _ _ (beside deployment namespace refl ∙ deployed)
          | stateful_set ↦ record {
            finished = finished;
            rest = rest;
            split = sym same ∙ split;
            now = now;
          }
        ],
        λ k m differs.
            beside k m (not_here (same_kind stateful_set k) (namespace == m) differs)
            ∙ elsewhere k m (not_here (same_kind deployment k) (namespace == m) differs),
      )

  by_first : (x : World S) → Outcome (one deployment) x → Outcomes x.server (both x)
  unfolding both
  by_first x (done a y p) =
      subst (Outcomes x.server)
        (sym (bind_ok (one deployment) (λ n₁. one stateful_set >>= λ n₂. pure (n₁ + n₂)) x a y p))
        (second x y a (loop_outcome deployment x y (ok a) p) (outcome (one stateful_set) y))
  by_first x (failed e y p) =
      let ((finished, rest, split, now), beside) = loop_outcome deployment x y (err e) p in
      subst (Outcomes x.server)
        (sym (bind_err (one deployment) (λ n₁. one stateful_set >>= λ n₂. pure (n₁ + n₂)) x e y p))
        (
          λ kind. elim kind as (λ k. Partly change (fleet x.server k) (fleet y.server k)) [
            | deployment ↦ record { finished = finished; rest = rest; split = split; now = now }
            | stateful_set ↦ untouched _ _ (beside stateful_set namespace refl)
          ],
          λ k m differs. beside k m (not_here (same_kind deployment k) (namespace == m) differs),
        )

  pub both_lem : (x : World S) → Outcomes x.server (both x)
  both_lem x = by_first x (outcome (one deployment) x)
