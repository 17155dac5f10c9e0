-- ===== src/Events.antt =====
-- Events and their delivery (apps/api/src/core/events).
pub mod Stores
pub mod Dispatcher
mod Claims
mod Remaining
mod Attempts
pub mod Busy
mod Delivered
mod Tests
