-- ===== src/Approvals.antt =====
-- internal/approvals: explicit approvals bound to a frozen intent and its wallet.
pub mod Defs
pub mod Binding
pub mod History
mod Examples
