-- ===== src/Examples/Shelf.antt =====
-- A server that stores the workloads of every namespace, and the scaling and restoring on it.
use costguard_operator.Base.{
  ℕ, ◌≡◌, ◌∙◌, ap, subst, sym, refl, String, Bool, true, false, List, [], ◌∷◌, none, some, pos,
  arith, All, ◌==◌, lookup, insert, erase, if◌then◌else◌, eq_iff,
}
use costguard_operator.Go.Strconv.{format_int, parse_int32}
use costguard_operator.Kube.{
  Client, Kind, deployment, stateful_set, Workload, Result, ok, err, ApiError, not_found,
}
use costguard_operator.Kube.Server.{WorkloadServer, DistinctNames, Lacks, same_place, replace}
use costguard_operator.Kube.Action.{World}
use costguard_operator.Controller.Reconciler.{Reconciler}
use costguard_operator.Controller.Patching.{list_workloads, patch_workload, patch_items}
use costguard_operator.Controller.Patching.Fleet.{FleetSwept, OtherNamespaces}
use costguard_operator.Controller.Fleet.{scale-refines}
use costguard_operator.Controller.Fleet.Recovery.{
  Rests, AllRecovered, scaled_and_settled, restore-after-scale,
}
use costguard_operator.Controller.Scale.{
  is_exempt, scaled_to_zero, save_replicas, scale_items, scale_deployments_to_zero,
  scale_stateful_sets_to_zero, scale_workloads_to_zero,
}
use costguard_operator.Controller.Restore.{
  restored, prior_count, restore_items, restore_deployments_from_annotation,
  restore_stateful_sets_from_annotation, restore_scaled_workloads,
}
use costguard_operator.Examples.Cluster.{web, plain_reconciler}

abbrev IsOk : {E A : Type 0} → Result E A → Type 0
IsOk (ok a) = Unit
IsOk (err e) = ⊥

ok_ne_err : {E A : Type 0} {a : A} {e : E} → ok a ≡ err e → ⊥
ok_ne_err p = subst IsOk p tt

abbrev value : {E A : Type 0} → A → Result E A → A
value d (ok a) = a
value d (err e) = d

ok_inj : {E A : Type 0} {a b : A} → ◌≡◌ {A = Result E A} (ok a) (ok b) → a ≡ b
ok_inj {a} p = ap (value a) p

record Shelf : Type 0 where
  held : Kind → String → List Workload
  distinct : (kind : Kind) (namespace : String) → DistinctNames (held kind namespace)

Lacks-replace :
    (name : String) (new : Workload) (ws : List Workload)
    → Lacks name ws
    → Lacks name (replace new ws)
unfolding replace
Lacks-replace name new [] h = tt
Lacks-replace name new (w ∷ ws) (differs, h) =
    by_test (w.name == new.name) refl (Lacks-replace name new ws h)
  where
    by_test :
        (b : Bool)
        → (w.name == new.name) ≡ b
        → Lacks name (replace new ws)
        → Lacks name (if b then new ∷ replace new ws else w ∷ replace new ws)
    by_test true e rest = (λ same. differs ((eq_iff w.name new.name).0 e ∙ same), rest)
    by_test false e rest = (differs, rest)

DistinctNames-replace :
    (new : Workload) (ws : List Workload) → DistinctNames ws → DistinctNames (replace new ws)
unfolding replace
DistinctNames-replace new [] h = tt
DistinctNames-replace new (w ∷ ws) (lacks, h) =
    by_test (w.name == new.name) refl (DistinctNames-replace new ws h)
  where
    by_test :
        (b : Bool)
        → (w.name == new.name) ≡ b
        → DistinctNames (replace new ws)
        → DistinctNames (if b then new ∷ replace new ws else w ∷ replace new ws)
    by_test true e rest = (
      Lacks-replace new.name new ws
          (subst (λ (name : String). Lacks name ws) ((eq_iff w.name new.name).0 e) lacks),
      rest,
    )
    by_test false e rest = (Lacks-replace w.name new ws lacks, rest)

DistinctNames-if :
    (b : Bool) (new : Workload) (ws : List Workload)
    → DistinctNames ws
    → DistinctNames (if b then replace new ws else ws)
DistinctNames-if true new ws h = DistinctNames-replace new ws h
DistinctNames-if false new ws h = h

abbrev patched : Kind → String → Workload → Shelf → Shelf
patched kind namespace new s = record {
  held = λ k m. if same_place kind namespace k m then replace new (s.held k m) else s.held k m;
  distinct =
      λ k m. DistinctNames-if (same_place kind namespace k m) new (s.held k m) (s.distinct k m);
}

abbrev shelf_client : Client ℕ Shelf
shelf_client = record {
  now = λ s. (pos 2000, s);
  get_budget_namespace = λ req s. (err not_found, s);
  list_budget_namespaces = λ s. (ok [], s);
  create_or_patch_namespace = λ name change s. (ok tt, s);
  create_or_update_resource_quota = λ name change s. (ok tt, s);
  create_or_update_limit_range = λ name change s. (ok tt, s);
  get_resource_quota = λ name s. (err not_found, s);
  list_workloads = λ kind namespace s. (ok (s.held kind namespace), s);
  patch_workload = λ kind namespace w w' s. (ok tt, patched kind namespace w' s);
  delete_namespace = λ name s. (ok tt, s);
  update_status = λ bn s. (ok tt, s);
  set_status_condition = λ s conditions c. c ∷ conditions;
}

abbrev shelf_reconciler : Reconciler ℕ ℕ Shelf
shelf_reconciler = record {
  client = shelf_client;
  floats = plain_reconciler.floats;
  quantities = plain_reconciler.quantities;
  has_recorder = false;
  spend_querier = none;
}

abbrev shelf_server : WorkloadServer shelf_client
shelf_server = record {
  stored = λ s. s.held;
  names_distinct = λ s. s.distinct;
  list_current = λ kind namespace s items e. sym (ok_inj e);
  list_keeps = λ kind namespace s k m. refl;
  patch_applies = λ kind namespace w w' s s' done in_place same e k m.
      ap (λ (p : Result ApiError (Unit {0}) × Shelf). p.1.held k m) (sym e);
  patch_refused = λ kind namespace w w' s s' why e.
      absurd (ok_ne_err (ap (λ (p : Result ApiError (Unit {0}) × Shelf). p.0) e));
}

-- web and a database that must not be scaled, in team-a.
abbrev database : Workload
database = record {
  name = "database";
  template_labels = some (("ealebed.github.io/exempt", "true") ∷ []);
  replicas = none;
  annotations = none;
}

abbrev fleet : Kind → String → List Workload
fleet deployment namespace = if namespace == "team-a" then web ∷ database ∷ [] else []
fleet stateful_set namespace = []

differ : ◌≡◌ {A = String} "database" "web" → ⊥
differ e = absurd (ground (arith, eq_iff "database" "web", e))

fleet_distinct : (kind : Kind) (namespace : String) → DistinctNames (fleet kind namespace)
fleet_distinct deployment namespace = by_test (namespace == "team-a")
  where
    by_test : (b : Bool) → DistinctNames (if b then web ∷ database ∷ [] else [])
    by_test true = (((λ e. differ e), tt), (tt, tt))
    by_test false = tt
fleet_distinct stateful_set namespace = tt

abbrev before : World Shelf
before = record {
  server = record { held = fleet; distinct = fleet_distinct };
  calls = [];
  events = [];
}

after : World Shelf
after = (scale_workloads_to_zero shelf_reconciler "team-a" before).1

later : World Shelf
later = (scale_workloads_to_zero shelf_reconciler "team-a" after).1

back : World Shelf
back = (restore_scaled_workloads shelf_reconciler "team-a" after).1

one_scaled : scale_workloads_to_zero shelf_reconciler "team-a" before ≡ (ok 1, after)
unfolding after scale_workloads_to_zero scale_deployments_to_zero scale_stateful_sets_to_zero
    scale_items list_workloads patch_workload patch_items scaled_to_zero save_replicas is_exempt
    lookup insert format_int
one_scaled = refl

none_scaled : scale_workloads_to_zero shelf_reconciler "team-a" after ≡ (ok 0, later)
unfolding later after scale_workloads_to_zero scale_deployments_to_zero scale_stateful_sets_to_zero
    scale_items list_workloads patch_workload patch_items scaled_to_zero save_replicas is_exempt
    lookup insert format_int replace
none_scaled = refl

one_restored : restore_scaled_workloads shelf_reconciler "team-a" after ≡ (ok 1, back)
unfolding back after scale_workloads_to_zero scale_deployments_to_zero scale_stateful_sets_to_zero
    scale_items list_workloads patch_workload patch_items scaled_to_zero save_replicas is_exempt
    lookup insert format_int replace restore_scaled_workloads restore_deployments_from_annotation
    restore_stateful_sets_from_annotation restore_items restored prior_count parse_int32 erase
one_restored = refl

scale-refines_example :
    let (q, z) = scale_workloads_to_zero shelf_reconciler "team-a" before in
    FleetSwept shelf_server "team-a" scaled_to_zero before.server q z.server
    × OtherNamespaces shelf_server "team-a" before.server z.server
scale-refines_example = scale-refines shelf_reconciler shelf_server "team-a" before

scaled_and_settled_example :
    ((kind : Kind) → All Rests (after.server.held kind "team-a"))
    × (◌≡◌ {A = ℕ} 0 0)
    × ((kind : Kind) → later.server.held kind "team-a" ≡ after.server.held kind "team-a")
scaled_and_settled_example =
    scaled_and_settled shelf_reconciler shelf_server "team-a" before after later 1 0 one_scaled
      none_scaled

restore-after-scale_example :
    AllRecovered (web ∷ database ∷ []) (back.server.held deployment "team-a")
restore-after-scale_example =
    restore-after-scale shelf_reconciler shelf_server "team-a" before after back 1 1 one_scaled
      one_restored deployment
