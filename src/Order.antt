-- ===== src/Order.antt =====
-- backend/app/domain/order: the status machine, the order aggregate, and the service that checks
-- out, pays, cancels and moves orders.
pub mod Payments
pub mod Status
pub mod Models
pub mod Shop
pub mod Draft
pub mod Service
pub mod Outcome
pub mod Moves
pub mod Units
pub mod Settling
pub mod Drafted
pub mod Outstanding
pub mod Accounts
pub mod Trade
pub mod Progress
pub mod Amounts
pub mod Replay
