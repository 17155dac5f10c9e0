-- ===== src/Kds/Runs.antt =====
-- apps/api/src/modules/kds: what any sequence of commands does to the tickets.
pub mod Steps
pub mod Writes
pub mod Follow
use merchant_operations_plat.Prelude.{
  ◌≡◌, ◌⊎◌, inl, inr, refl, ap, sym, subst, ◌∙◌, arith, Bool, true, false, ◌&&◌, Option, none, some,
  List, [], ◌∷◌, Uuid, Text, Instant, ◌==◌, if◌then◌else◌,
}
use merchant_operations_plat.Contracts.Kds.{
  KitchenTicketSource, KitchenTicketStatus, same_status, canceled,
}
use merchant_operations_plat.Database.{Db}
use merchant_operations_plat.Kds.Ticket.{KitchenTicket}
use merchant_operations_plat.Kds.TicketStatus.{next_status, is_finished}
use merchant_operations_plat.Kds.Tickets.{NewKitchenTicket, create}
use merchant_operations_plat.Kds.UseCases.{advance_ticket, cancel_ticket}

pub data Command : Type 0 where
  create_new : NewKitchenTicket → Command
  advance_seen : Uuid → Uuid → Uuid → KitchenTicketStatus → Option Uuid → Instant → Command
  call_off : Uuid → List KitchenTicketSource → Text → Option Uuid → Instant → Command

-- What a command leaves, whether it answers or throws.
unfoldable pub apply : Command → Db → Db
unfolding create advance_ticket cancel_ticket
apply (create_new n) db = (create n db).1
apply (advance_seen tenant outlet id expected actor now) db =
    (advance_ticket tenant outlet id expected actor now db).1
apply (call_off tenant sources reference actor now) db =
    (cancel_ticket tenant sources reference actor now db).1

unfoldable pub run : List Command → Db → Db
unfolding apply
run [] db = db
run (c ∷ cs) db = run cs (apply c db)
