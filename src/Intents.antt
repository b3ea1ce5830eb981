-- ===== src/Intents.antt =====
-- internal/intents: frozen intents, their lifecycle and the identity of their operation.
pub mod Material
pub mod Intent
pub mod Operation
pub mod History
pub mod Samples
mod Examples
