-- ===== src/Kube.antt =====
-- What the operator uses of Kubernetes, controller-runtime, the BigQuery client and float64: the
-- data that it reads and writes, and the operations as fields of records that every definition
-- takes as a parameter. None of this code is the operator's.
pub mod Action
pub mod Server
pub mod Resources
use costguard_operator.Base.{String, Bool, List, Option, Map, ℕ, ℤ}
use costguard_operator.Go.Time.{Time, Duration}
use costguard_operator.Api.{BudgetNamespace, Condition, Message}

-- `not_found` and `conflict` are what apierrors.IsNotFound and apierrors.IsConflict recognise.
pub data ApiError : Type 0 where
  not_found conflict : ApiError
  other_error : String → ApiError

-- An error is its format and the error that it wraps (`%w`), or what a library returned. Other
-- arguments of a format are left out.
pub data Error : Type 0 where
  api_error : ApiError → Error
  parse_error : String → Error
  library_error : String → Error
  errorf : String → Error
  wrap : String → Error → Error
  panicked : Error

pub data Result (E A : Type 0) : Type 0 where
  ok : A → Result E A
  err : E → Result E A

pub data Kind : Type 0 where
  deployment stateful_set : Kind

-- The fields of a Deployment or a StatefulSet that the operator touches.
pub record Workload : Type 0 where
  pub name : String
  pub template_labels : Option (Map String)
  pub replicas : Option ℤ
  pub annotations : Option (Map String)

-- corev1.Namespace
pub record Namespace : Type 0 where
  pub labels : Option (Map String)
  pub annotations : Option (Map String)

-- A corev1.ResourceList is a map from resource names to quantities.
pub record ResourceQuota (Q : Type 0) : Type 0 where
  pub name : String
  pub namespace : String
  pub hard : Map Q
  pub used : Map Q

pub record LimitRangeItem (Q : Type 0) : Type 0 where
  pub limit_type : String
  pub default_request : Map Q
  pub default_limit : Map Q

pub record LimitRange (Q : Type 0) : Type 0 where
  pub limits : List (LimitRangeItem Q)

pub record NamespacedName : Type 0 where
  pub namespace : String
  pub name : String

-- float64: parsing and printing as strconv.ParseFloat(s, 64) and FormatFloat(x, 'f', -1, 64), and
-- `fraction_of` as in Go.Duration.
pub record Floats (F : Type 0) : Type 0 where
  pub zero_float : F
  pub epsilon : F  -- 1e-9
  pub add_float : F → F → F
  pub le_float : F → F → Bool
  pub lt_float : F → F → Bool
  pub parse_float : String → Option F
  pub format_float : F → String
  pub fraction_of : ℕ → ℕ → ℕ → ℕ

-- resource.ParseQuantity and Quantity.Cmp
pub record Quantities (Q : Type 0) : Type 0 where
  pub parse_quantity : String → Option Q
  pub cmp : Q → Q → ℤ

-- The client, with the clock, over the state `S` of everything outside the operator.
pub record Client (Q S : Type 0) : Type 0 where
  pub now : S → Time × S
  pub get_budget_namespace : NamespacedName → S → Result ApiError BudgetNamespace × S
  pub list_budget_namespaces : S → Result ApiError (List BudgetNamespace) × S
  pub create_or_patch_namespace :
      String → (Namespace → Namespace) → S → Result ApiError (Unit {0}) × S
  pub create_or_update_resource_quota :
      NamespacedName → (ResourceQuota Q → ResourceQuota Q) → S → Result ApiError (Unit {0}) × S
  pub create_or_update_limit_range :
      NamespacedName → (LimitRange Q → LimitRange Q) → S → Result ApiError (Unit {0}) × S
  pub get_resource_quota : NamespacedName → S → Result ApiError (ResourceQuota Q) × S
  pub list_workloads : Kind → String → S → Result ApiError (List Workload) × S
  -- Patch(ctx, modified, MergeFrom(original))
  pub patch_workload : Kind → String → Workload → Workload → S → Result ApiError (Unit {0}) × S
  pub delete_namespace : String → S → Result ApiError (Unit {0}) × S
  pub update_status : BudgetNamespace → S → Result ApiError (Unit {0}) × S
  -- apimeta.SetStatusCondition, which reads the clock
  pub set_status_condition : S → List Condition → Condition → List Condition

-- internal/controller/cost_budget.go's interface NamespaceSpendQuerier: table, cluster, namespace,
-- location, lookback.
pub record NamespaceSpendQuerier (F S : Type 0) : Type 0 where
  pub namespace_spend_usd : String → String → String → String → Duration → S → Result Error F × S

pub data EventType : Type 0 where
  normal warning : EventType

pub data EventMessage : Type 0 where
  shown : Message → EventMessage
  failure : Error → EventMessage

pub record Event : Type 0 where
  pub event_type : EventType
  pub reason : String
  pub message : EventMessage
