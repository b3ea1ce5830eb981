-- ===== src/Owners.antt =====
-- internal/auth/identity.go and internal/wallet: who owns an intent, with which wallet.
pub mod Identity
pub mod Binding
pub mod Lifecycle
mod Examples
