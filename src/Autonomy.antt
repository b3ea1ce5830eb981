-- ===== src/Autonomy.antt =====
-- internal/autonomy: grants, and the ledger that holds their reservations.
pub mod Grant
pub mod Ledger
pub mod Caps
mod Examples
