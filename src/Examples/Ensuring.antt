-- ===== src/Examples/Ensuring.antt =====
-- A server that stores the ensured objects, and two runs of the ensured resources on it.
use costguard_operator.Base.{
  ℕ, ◌≡◌, refl, sym, ap, false, [], ◌∷◌, none, some, pos, ◌-ℤ◌, lookup, copy_into, insert,
}
use costguard_operator.Api.{BudgetNamespaceSpec}
use costguard_operator.Kube.{Client, ApiError, not_found, ok, err, Result}
use costguard_operator.Kube.Action.{World}
use costguard_operator.Kube.Resources.{
  Stored, ResourceServer, with_namespace, with_quota, with_limit_range,
}
use costguard_operator.Controller.Reconciler.{Reconciler}
use costguard_operator.Controller.Ensure.{
  merge_map, merge_namespace, parsed, must_parse, apply_namespace, apply_resource_quota,
  apply_limit_range, ensure_resources,
}
use costguard_operator.Controller.Ensure.Converging.{ensured_again}
use costguard_operator.Controller.Ensure.Stored.{Ensured, ensure-refines}
use costguard_operator.Examples.Cluster.{Dollars, dollar_floats, spec}

abbrev client : Client ℕ (Stored ℕ)
client = record {
  now = λ s. (pos 0, s);
  get_budget_namespace = λ req s. (err not_found, s);
  list_budget_namespaces = λ s. (ok [], s);
  create_or_patch_namespace = λ name change s. (ok tt, with_namespace name change s);
  create_or_update_resource_quota = λ key change s. (ok tt, with_quota key change s);
  create_or_update_limit_range = λ key change s. (ok tt, with_limit_range key change s);
  get_resource_quota = λ name s. (err not_found, s);
  list_workloads = λ kind namespace s. (ok [], s);
  patch_workload = λ kind namespace w w' s. (ok tt, s);
  delete_namespace = λ name s. (ok tt, s);
  update_status = λ bn s. (ok tt, s);
  set_status_condition = λ s conditions c. c ∷ conditions;
}

abbrev reconciler : Reconciler Dollars ℕ (Stored ℕ)
reconciler = record {
  client = client;
  floats = dollar_floats;
  quantities = record { parse_quantity = λ s. some 1; cmp = λ a b. pos a -ℤ pos b };
  has_recorder = false;
  spend_querier = none;
}

second :
    {s s' : Stored ℕ} {x y : Result ApiError (Unit {0})}
    → ◌≡◌ {A = Result ApiError (Unit {0}) × Stored ℕ} (x, s) (y, s')
    → s ≡ s'
second e = ap (λ (p : Result ApiError (Unit {0}) × Stored ℕ). p.1) e

server : ResourceServer client
server = record {
  stored = λ s. s;
  namespace_ensured = λ name change s s' b e. second (sym e);
  quota_ensured = λ key change s s' b e. second (sym e);
  limit_range_ensured = λ key change s s' b e. second (sym e);
}

abbrev labelled : BudgetNamespaceSpec
labelled = record spec { labels = some (("team", "a") ∷ ("env", "dev") ∷ []) }

abbrev empty : World (Stored ℕ)
empty = record {
  server = record {
    namespaces = λ name. some (record { labels = some (("env", "test") ∷ []); annotations = none });
    quotas = λ key. none;
    limit_ranges = λ key. none;
  };
  calls = [];
  events = [];
}

abbrev once : World (Stored ℕ)
once = (ensure_resources reconciler labelled empty).1

abbrev again : World (Stored ℕ)
again = (ensure_resources reconciler labelled once).1

once_ran : ensure_resources reconciler labelled empty ≡ (ok tt, once)
unfolding ensure_resources apply_namespace apply_resource_quota apply_limit_range parsed must_parse
once_ran = refl

again_ran : ensure_resources reconciler labelled once ≡ (ok tt, again)
unfolding ensure_resources apply_namespace apply_resource_quota apply_limit_range parsed must_parse
again_ran = refl

ensure-refines_example :
    Ensured reconciler.quantities labelled (server.stored empty.server) (server.stored once.server)
unfolding lookup
ensure-refines_example =
    ensure-refines reconciler server labelled empty once tt (refl, (refl, tt)) tt once_ran

ensured_again_example : server.stored again.server ≡ server.stored once.server
unfolding lookup
ensured_again_example =
    ensured_again reconciler server labelled empty once once again tt tt (refl, (refl, tt)) tt
      once_ran refl again_ran

once_labels :
    once.server.namespaces "team-a"
    ≡ some (record { labels = some (("env", "dev") ∷ ("team", "a") ∷ []); annotations = none })
unfolding ensure_resources apply_namespace apply_resource_quota apply_limit_range parsed must_parse
    merge_namespace merge_map copy_into insert
once_labels = refl
