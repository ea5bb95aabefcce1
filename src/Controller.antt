-- ===== src/Controller.antt =====
-- internal/controller: the reconciler of BudgetNamespace resources, a module for each file or each
-- phase of Reconcile.
pub mod Reconciler
pub mod Patching
pub mod Scale
pub mod Restore
pub mod Fleet
pub mod Cost
pub mod Quota
pub mod Ttl
pub mod Ensure
pub mod Enforce
pub mod Status
pub mod Reconcile
pub mod Watches
