-- ===== src/Kds.antt =====
-- The kitchen display module (apps/api/src/modules/kds).
pub mod Ticket
pub mod TicketStatus
pub mod Tickets
pub mod Moves
pub mod UseCases
pub mod Runs
mod Once
mod Reactions
mod Tests
