-- ===== src/Api.antt =====
-- api/v1alpha1/budgetnamespace_types.go: the BudgetNamespace resource, with the Kubernetes
-- metadata that the operator reads. A Go map that may be nil is an `Option`.
pub mod Memory
pub mod DeepCopy
use costguard_operator.Base.{String, Bool, List, Option, Map, ℤ, ℕ}
use costguard_operator.Go.Time.{Time}

pub record BudgetNamespaceQuotaSpec : Type 0 where
  pub cpu : String
  pub memory : String
  pub storage : String
  pub persistent_volume_claims : ℤ
  pub pods : ℤ

pub record BudgetNamespaceDefaultsSpec : Type 0 where
  pub request_cpu : String
  pub request_memory : String
  pub limit_cpu : String
  pub limit_memory : String

pub record BudgetNamespaceEnforcementSpec : Type 0 where
  pub enabled : Bool
  pub action : String
  pub restore_on_recovery : Bool
  pub enforcement_cooldown : String

pub record BudgetNamespaceCostBudgetSpec : Type 0 where
  pub enabled : Bool
  pub billing_export_table : String
  pub cluster_name : String
  pub billing_location : String
  pub max_spend_usd : String
  pub lookback_window : String
  pub query_interval : String

pub record BudgetNamespaceSpec : Type 0 where
  pub namespace_name : String
  pub labels : Option (Map String)
  pub annotations : Option (Map String)
  pub quota : BudgetNamespaceQuotaSpec
  pub defaults : BudgetNamespaceDefaultsSpec
  pub ttl : String
  pub enforcement : BudgetNamespaceEnforcementSpec
  pub cost_budget : Option BudgetNamespaceCostBudgetSpec

-- A message is its format with the value that the format shows; formatting is not modelled.
pub data Message : Type 0 where
  text : String → Message
  naming : String → String → Message
  counting : String → ℕ → Message
  counting_for : String → ℕ → String → Message
  lasting : String → ℤ → Message

-- metav1.Condition. The server library sets the transition time.
pub record Condition : Type 0 where
  pub condition_type : String
  pub status : String
  pub reason : String
  pub message : Message
  pub observed_generation : ℤ

pub record BudgetNamespaceStatus : Type 0 where
  pub observed_generation : ℤ
  pub managed_namespace : String
  pub expires_at : Option Time
  pub last_enforcement_at : Option Time
  pub last_enforcement_operation : String
  pub last_cost_query_at : Option Time
  pub last_observed_spend_usd : String
  pub conditions : List Condition

pub record BudgetNamespace : Type 0 where
  pub name : String
  pub namespace : String
  pub creation_timestamp : Time
  pub generation : ℤ
  pub spec : BudgetNamespaceSpec
  pub status : BudgetNamespaceStatus
