-- ===== src/Runtime.antt =====
-- internal/execution/runtime: the service that drives an execution, and the rows in which
-- internal/storage/postgres keeps its observations.
pub mod Ports
pub mod Service
pub mod Process
pub mod Advance
pub mod Writes
pub mod Submitting
pub mod Verifying
pub mod Preserved
pub mod Submission
pub mod Reconcile
pub mod Rows
pub mod Written
mod ReadBack
mod RowExamples
mod Examples
