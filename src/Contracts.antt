-- ===== src/Contracts.antt =====
-- The rules that the server and the screens share (packages/contracts).
pub mod Charges
pub mod Rates
pub mod Orders
pub mod Kds
pub mod Billing
pub mod Menu
pub mod Floor
