-- ===== src/OrderIntake.antt =====
-- The order intake kernel (apps/api/src/kernels/order-intake).
pub mod Pricing
pub mod Fulfillment
pub mod Orders
pub mod Decisions
pub mod Service
pub mod Once
pub mod Samples
mod Tests
