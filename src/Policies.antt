-- ===== src/Policies.antt =====
-- internal/policies: rules on what approved intents may spend, and their evaluation.
pub mod Types
pub mod Rules
pub mod Policy
pub mod View
pub mod Evaluation
pub mod Membership
pub mod Decision
pub mod Authorized
pub mod Lifecycle
pub mod Samples
pub mod Allowed
mod Examples
