-- ===== src/Entitlements.antt =====
-- What a workspace bought and who may use it (apps/api/src/core/entitlements).
pub mod Access
pub mod Effective
mod Granted
mod InForce
mod PerKey
mod Capabilities
mod Tests
