-- ===== src/Examples/Cluster.antt =====
-- A cluster whose clock moves on by one second with each reading, and a reconciler on it. The money
-- is in whole dollars, with a value that compares with nothing.
use costguard_operator.Base.{
  ℕ, String, Bool, true, false, List, [], ◌∷◌, Option, none, some, ℤ, pos, ◌+ℤ◌, ◌-ℤ◌, ltb, leb,
  if◌then◌else◌, ◌==◌, ◌+◌,
}
use costguard_operator.Go.Duration.{second}
use costguard_operator.Api.{
  BudgetNamespace, BudgetNamespaceSpec, BudgetNamespaceStatus, BudgetNamespaceCostBudgetSpec,
}
use costguard_operator.Kube.{
  ApiError, Floats, Client, NamespaceSpendQuerier, Result, ok, err, Workload, ResourceQuota,
  NamespacedName,
}
use costguard_operator.Kube.Action.{World}
use costguard_operator.Controller.Reconciler.{Reconciler, resource_quota_name}

pub data Dollars : Type 0 where
  dollars : ℕ → Dollars
  not_a_number : Dollars

abbrev pub le_dollars : Dollars → Dollars → Bool
le_dollars (dollars a) (dollars b) = leb a b
le_dollars (dollars a) not_a_number = false
le_dollars not_a_number y = false

abbrev pub lt_dollars : Dollars → Dollars → Bool
lt_dollars (dollars a) (dollars b) = ltb a b
lt_dollars (dollars a) not_a_number = false
lt_dollars not_a_number y = false

abbrev pub add_dollars : Dollars → Dollars → Dollars
add_dollars (dollars a) (dollars b) = dollars (a + b)
add_dollars (dollars a) not_a_number = not_a_number
add_dollars not_a_number y = not_a_number

abbrev pub parse_dollars : String → Option Dollars
parse_dollars s =
    if s == "100" then some (dollars 100) else if s == "NaN" then some not_a_number else none

abbrev pub dollar_floats : Floats Dollars
dollar_floats = record {
  zero_float = dollars 0;
  epsilon = dollars 0;
  add_float = add_dollars;
  le_float = le_dollars;
  lt_float = lt_dollars;
  parse_float = parse_dollars;
  format_float = λ x. "100";
  fraction_of = λ a b c. 0;
}

pub record Cluster : Type 0 where
  pub clock : ℤ
  pub resource : Result ApiError BudgetNamespace
  pub workloads : List Workload
  pub quota : ResourceQuota ℕ

abbrev pub client : Client ℕ Cluster
client = record {
  now = λ s. (s.clock, record s { clock = s.clock +ℤ pos second });
  get_budget_namespace = λ req s. (s.resource, s);
  list_budget_namespaces = λ s. (elim s.resource [ ok bn ↦ ok (bn ∷ []) | err e ↦ err e ], s);
  create_or_patch_namespace = λ name change s. (ok tt, s);
  create_or_update_resource_quota = λ name change s. (ok tt, s);
  create_or_update_limit_range = λ name change s. (ok tt, s);
  get_resource_quota = λ name s. (ok s.quota, s);
  list_workloads = λ kind namespace s. (ok s.workloads, s);
  patch_workload = λ kind namespace w w' s. (ok tt, s);
  delete_namespace = λ name s. (ok tt, s);
  update_status = λ bn s. (ok tt, s);
  set_status_condition = λ s conditions c. c ∷ conditions;
}

abbrev pub querier : NamespaceSpendQuerier Dollars Cluster
querier = record {
  namespace_spend_usd = λ table cluster namespace location lookback s. (ok (dollars 100), s);
}

abbrev pub reconciler : Reconciler Dollars ℕ Cluster
reconciler = record {
  client = client;
  floats = dollar_floats;
  quantities = record { parse_quantity = λ s. some 1; cmp = λ a b. pos a -ℤ pos b };
  has_recorder = true;
  spend_querier = some querier;
}

-- Whole dollars alone.
abbrev pub plain_reconciler : Reconciler ℕ ℕ Cluster
plain_reconciler = record {
  client = client;
  floats = record {
    zero_float = 0;
    epsilon = 0;
    add_float = λ a b. a + b;
    le_float = leb;
    lt_float = ltb;
    parse_float = λ s. if s == "100" then some 100 else none;
    format_float = λ x. "100";
    fraction_of = λ a b c. 0;
  };
  quantities = reconciler.quantities;
  has_recorder = true;
  spend_querier = none;
}

abbrev pub cost_budget : BudgetNamespaceCostBudgetSpec
cost_budget = record {
  enabled = true;
  billing_export_table = "acme.billing.export";
  cluster_name = "dev";
  billing_location = "";
  max_spend_usd = "100";
  lookback_window = "24h";
  query_interval = "";
}

abbrev pub nan_budget : BudgetNamespaceCostBudgetSpec
nan_budget = record cost_budget { max_spend_usd = "NaN" }

abbrev pub spec : BudgetNamespaceSpec
spec = record {
  namespace_name = "team-a";
  labels = none;
  annotations = none;
  quota = record {
    cpu = "1";
    memory = "";
    storage = "";
    persistent_volume_claims = pos 0;
    pods = pos 0;
  };
  defaults = record { request_cpu = ""; request_memory = ""; limit_cpu = ""; limit_memory = "" };
  ttl = "1h";
  enforcement = record {
    enabled = true;
    action = "ScaleToZero";
    restore_on_recovery = true;
    enforcement_cooldown = "";
  };
  cost_budget = some cost_budget;
}

abbrev pub status : BudgetNamespaceStatus
status = record {
  observed_generation = pos 1;
  managed_namespace = "team-a";
  expires_at = none;
  last_enforcement_at = none;
  last_enforcement_operation = "";
  last_cost_query_at = some (pos 1000);
  last_observed_spend_usd = "100";
  conditions = [];
}

abbrev pub budget_namespace : BudgetNamespace
budget_namespace = record {
  name = "team-a-budget";
  namespace = "default";
  creation_timestamp = pos 500;
  generation = pos 1;
  spec = spec;
  status = status;
}

abbrev pub web : Workload
web = record {
  name = "web";
  template_labels = none;
  replicas = some (pos 3);
  annotations = some (("team", "a") ∷ []);
}

abbrev pub resource_quota : ResourceQuota ℕ
resource_quota = record {
  name = resource_quota_name;
  namespace = "team-a";
  hard = ("cpu", 4) ∷ ("pods", 10) ∷ [];
  used = ("cpu", 4) ∷ [];
}

abbrev pub cluster : Cluster
cluster = record {
  clock = pos 2000;
  resource = ok budget_namespace;
  workloads = web ∷ [];
  quota = resource_quota;
}

abbrev pub at_cluster : Cluster → World Cluster
at_cluster s = record { server = s; calls = []; events = [] }

abbrev pub request : NamespacedName
request = record { namespace = "default"; name = "team-a-budget" }
