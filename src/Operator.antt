-- ===== src/Operator.antt =====
-- The remediation controller and the executer together: what the status of a resource says of the
-- fence agents that have run, over any sequence of reconciliations and ends of goroutines.
pub mod Ledger
pub mod Phases
pub mod Reconciles
pub mod Routines
pub mod Ends
pub mod History
pub mod Covered
pub mod Safety
