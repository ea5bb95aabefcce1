-- ===== src/Examples.antt =====
-- A small cluster with one BudgetNamespace, and runs of the operator's code on it.
mod Cluster
mod Workloads
mod Spending
mod Timing
mod Reconciling
mod Shelf
mod Composed
mod Starting
mod Copies
mod Ensuring
