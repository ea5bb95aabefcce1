-- ===== src/Lib.antt =====
-- costguard-operator, a Kubernetes operator: for each BudgetNamespace it keeps a namespace with a
-- ResourceQuota and a LimitRange, scales the workloads of the namespace to zero while the quota or
-- the billed spend is at its limit, restores them afterwards, and deletes the namespace after its
-- TTL.
--
-- Parts, by the file of this library and the file of the repository:
-- - Api: the resource's types, api/v1alpha1/budgetnamespace_types.go.
-- - Api.Memory and Api.DeepCopy: api/v1alpha1/zz_generated.deepcopy.go, over a memory of objects
--   at addresses. Everywhere else a value that the code copies is a plain record.
-- - Controller.Reconciler: the reconciler's fields, constants and events; Controller.Ttl,
--   Controller.Ensure, Controller.Enforce, Controller.Status and Controller.Reconcile: the phases
--   of Reconcile in internal/controller/budgetnamespace_controller.go, in the order of the code
--   (reconcile, reconcile_found, reconcile_checked, reconcile_valid, reconcile_at, then act with
--   its branches, then write_status); Controller.Quota: quotaUsedAtOrOverHard and
--   shouldScaleDeploymentsToZero of the same file.
-- - Controller.Patching and Controller.Scale: internal/controller/workload_scale.go;
--   Controller.Restore: internal/controller/budgetnamespace_enforcement.go. The code has each loop
--   twice, for Deployments and for StatefulSets; here it is one loop over a Kind.
-- - Controller.Cost: internal/controller/cost_budget.go (validateCostBudgetSpec is
--   validate_cost_budget_spec, resolveNamespaceSpendUSD is resolve_namespace_spend_usd, and so
--   on).
-- - Controller.Watches: internal/controller/budgetnamespace_watches.go and SetupWithManager's
--   predicate.
-- - Controller.Fleet: scaling and restoring as steps on the workloads that a server stores, by
--   Controller.Patching.Store and Controller.Patching.Fleet; Kube.Server says what such a server
--   does. Kube.Resources says it of CreateOrPatch and CreateOrUpdate, for
--   Controller.Ensure.Converging and Controller.Ensure.Stored.
-- - Billing: internal/billing/spend.go.
-- - Startup: cmd/main.go. Startup.Options has the flags and the options made of them, Startup.Main
--   the order of the start-up and SetupWithManager of
--   internal/controller/budgetnamespace_controller.go, Startup.Scheme the registration of the
--   types, api/v1alpha1/groupversion_info.go, and init.
-- - Go: what the code uses of Go's library: strings, strconv, time. Kube: the types and operations
--   of Kubernetes that it uses. Base: shared names and lemmas. Examples: a small cluster and runs
--   on it.
--
-- A piece of the code that talks to the server is an Action (Kube.Action): from a world, which is
-- the state of everything outside, the requests sent so far and the events emitted so far, to a
-- result or an error and a new world. Changes that a failed action made stay. Local variables of
-- Reconcile that several phases set are the records Ttl and Progress. Kube.Action.Emits says which
-- requests an action adds, Kube.Action.Ensures what its result satisfies, Kube.Action.OnOk also
-- what the world after it does; Controller.Reconcile.Permitted lists the requests that a
-- BudgetNamespace permits.
--
-- Parameters: the client of the API server with the clock (any functions over any state, so that
-- the server may answer anything, and time may do anything), SetStatusCondition,
-- resource.Quantity, the deep copies of metadata, times and conditions, float64 with its parsing
-- and printing, the float step of time.ParseDuration, the BigQuery client, and for the start-up
-- the scheme with its builder, the flag package, the environment and controller-runtime's manager
-- (Runtime). A Time is a number of nanoseconds from year 1 and does not wrap; Time.Sub saturates
-- and the negation of a Duration wraps at the least int64, as in Go. A Go map is an association list, read at the first entry of a key; error texts are
-- their formats.
--
-- Bounds: int32 replica counts are parsed with their range; ParseDuration has int64 and uint64
-- bounds written out. The one fuel, that of printing decimal digits, is the number itself plus
-- one; each digit divides the number by ten, so that it is at most as many rounds as the number.
--
-- Not modelled: the logger and its flags, the log lines, the tests, and the admission rules in the
-- kubebuilder markers.
pub mod Base
pub mod Go
pub mod Api
pub mod Kube
pub mod Controller
pub mod Billing
pub mod Startup
mod Examples
