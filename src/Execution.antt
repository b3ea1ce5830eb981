-- ===== src/Execution.antt =====
-- internal/execution: provider-neutral execution records and their lifecycle.
pub mod Types
pub mod Request
pub mod NewRequest
pub mod Authority
pub mod Framing
pub mod Evidence
pub mod Lifecycle
pub mod Steps
pub mod Progress
pub mod Liveness
pub mod Samples
mod RequestExamples
mod Examples
