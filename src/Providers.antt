-- ===== src/Providers.antt =====
-- internal/providers: what is known of the receipts on the chain, and what the runtime is told of the
-- outcomes of providers.
pub mod Observation
mod Tracking
pub mod Reference
pub mod Classification
mod Answers
mod Outcomes
mod OutcomeExamples
mod Examples
