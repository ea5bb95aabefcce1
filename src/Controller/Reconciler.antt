-- ===== src/Controller/Reconciler.antt =====
-- internal/controller/budgetnamespace_controller.go: the reconciler's fields, its constants, and
-- the two functions that emit events.
use costguard_operator.Base.{String, Bool, Option, ◌*◌, pos}
use costguard_operator.Go.Duration.{second, minute}
use costguard_operator.Go.Time.{Duration}
use costguard_operator.Kube.{
  Floats, Quantities, Client, NamespaceSpendQuerier, normal, warning, EventMessage,
}
use costguard_operator.Kube.Action.{Action, emit}

-- type BudgetNamespaceReconciler, with the library operations that its methods call. `Recorder`
-- matters by whether it is nil; `Scheme` is not read.
pub record Reconciler (F Q S : Type 0) : Type 0 where
  pub client : Client Q S
  pub floats : Floats F
  pub quantities : Quantities Q
  pub has_recorder : Bool
  pub spend_querier : Option (NamespaceSpendQuerier F S)

abbrev pub resource_quota_name : String
resource_quota_name = "costguard-quota"

abbrev pub limit_range_name : String
limit_range_name = "costguard-limitrange"

abbrev pub costguard_exempt_label : String
costguard_exempt_label = "ealebed.github.io/exempt"

abbrev pub costguard_exempt_label_value : String
costguard_exempt_label_value = "true"

abbrev pub pre_scale_replicas_annotation : String
pre_scale_replicas_annotation = "finops.ealebed.github.io/pre-scale-replicas"

abbrev pub condition_type_expired : String
condition_type_expired = "Expired"

abbrev pub condition_type_over_budget : String
condition_type_over_budget = "OverBudget"

abbrev pub condition_type_enforcement_recovery_deferred : String
condition_type_enforcement_recovery_deferred = "EnforcementRecoveryDeferred"

abbrev pub condition_type_ready : String
condition_type_ready = "Ready"

abbrev pub condition_reason_ttl_expired : String
condition_reason_ttl_expired = "TTLExpired"

abbrev pub enforcement_op_scale_to_zero : String
enforcement_op_scale_to_zero = "ScaleToZero"

abbrev pub enforcement_op_restore : String
enforcement_op_restore = "Restore"

-- ttlDeleteGracePeriod, 10 s
abbrev pub ttl_delete_grace_period : Duration
ttl_delete_grace_period = pos (10 * second)

-- enforcementPollInterval, 30 s
abbrev pub enforcement_poll_interval : Duration
enforcement_poll_interval = pos (30 * second)

-- defaultEnforcementCooldown, 2 min
abbrev pub default_enforcement_cooldown : Duration
default_enforcement_cooldown = pos (2 * minute)

module _ {F Q S : Type 0} (r : Reconciler F Q S) where
  unfoldable pub record_normal : String → EventMessage → Action S (Unit {0})
  record_normal reason message =
      emit r.has_recorder (record { event_type = normal; reason = reason; message = message })

  unfoldable pub record_warning : String → EventMessage → Action S (Unit {0})
  record_warning reason message =
      emit r.has_recorder (record { event_type = warning; reason = reason; message = message })
