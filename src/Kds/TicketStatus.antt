-- ===== src/Kds/TicketStatus.antt =====
-- apps/api/src/modules/kds/domain/ticket-status.ts: the one way a ticket moves.
use merchant_operations_plat.Prelude.{Bool, true, false, Option, none, some, Instant}
use merchant_operations_plat.Contracts.Kds.{
  KitchenTicketStatus, new, accepted, preparing, ready, served, canceled,
}
use merchant_operations_plat.Database.{EventType}
use merchant_operations_plat.Kds.Ticket.{KitchenTicket}

abbrev pub next_status : KitchenTicketStatus → Option KitchenTicketStatus
next_status new = some accepted
next_status accepted = some preparing
next_status preparing = some ready
next_status ready = some served
next_status served = none
next_status canceled = none

abbrev pub is_finished : KitchenTicketStatus → Bool
is_finished served = true
is_finished canceled = true
is_finished _ = false

-- `{ [STATUS_TIMESTAMP[to]]: at }`; there is no column for `NEW`.
abbrev pub stamp : KitchenTicketStatus → Instant → KitchenTicket → KitchenTicket
stamp new at t = t
stamp accepted at t = record t { accepted_at = some at }
stamp preparing at t = record t { started_at = some at }
stamp ready at t = record t { ready_at = some at }
stamp served at t = record t { served_at = some at }
stamp canceled at t = record t { canceled_at = some at }

-- `STATUS_EVENTS`
abbrev pub status_event : KitchenTicketStatus → Option EventType
status_event preparing = some EventType.ticket_started
status_event ready = some EventType.ticket_ready
status_event served = some EventType.ticket_served
status_event _ = none
