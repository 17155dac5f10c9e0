-- ===== src/PosSales.antt =====
-- The point of sale: apps/api/src/modules/pos-sales.
pub mod RegisterSession
pub mod Shifts
pub mod ShiftService
pub mod Closing
pub mod Cancellation
mod Tests
pub mod PosOrders
