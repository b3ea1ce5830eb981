-- ===== src/Payments.antt =====
-- internal/intents: what an intent pays, and the checks of its parameters.
pub mod Address
pub mod Amount
pub mod Token
pub mod Direct
pub mod Payroll
pub mod CrossPayroll
pub mod Swap
pub mod Financial
pub mod Params
pub mod Normal
pub mod Slippage
pub mod Digits
pub mod Units
pub mod Signs
pub mod Values
pub mod Totals
pub mod Samples
mod Examples
