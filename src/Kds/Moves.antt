-- ===== src/Kds/Moves.antt =====
-- apps/api/src/modules/kds/adapters/prisma-kitchen-ticket.repository.ts: a ticket is moved or
-- canceled, only from the status that was seen.
use merchant_operations_plat.Prelude.{
  ℕ, Bool, false, not, ◌&&◌, ◌||◌, Option, none, some, List, [], ◌∷◌, Uuid, Text, Instant, find,
  ◌==◌, if◌then◌else◌,
}
use merchant_operations_plat.Contracts.Kds.{
  KitchenTicketSource, KitchenTicketStatus, same_source, same_status, served, canceled,
}
use merchant_operations_plat.Database.{EventType}
use merchant_operations_plat.Database.Tables.{update_many, count_where}
use merchant_operations_plat.Database.Faults.{Fault}
use merchant_operations_plat.Database.Action.{
  Action, pure, throw, gets, ◌>>=◌, ◌>>◌, modify, emit, transaction,
}
use merchant_operations_plat.Kds.Ticket.{KitchenTicket}
use merchant_operations_plat.Kds.TicketStatus.{stamp}
use merchant_operations_plat.Kds.Tickets.{record_history}

pub record TicketMove : Type 0 where
  pub at : Instant
  pub event_type : Option EventType
  pub from : KitchenTicketStatus
  pub id : Uuid
  pub actor_id : Option Uuid
  pub outlet_id : Uuid
  pub tenant_id : Uuid
  pub to : KitchenTicketStatus

pub data TicketMoveResult : Type 0 where
  missing : TicketMoveResult
  stale : KitchenTicket → TicketMoveResult
  moved : KitchenTicket → TicketMoveResult

pub record TicketCancellation : Type 0 where
  pub at : Instant
  pub actor_id : Option Uuid
  pub source_reference : Text
  pub sources : List KitchenTicketSource
  pub tenant_id : Uuid

pub data CancelOutcome : Type 0 where
  was_canceled already_canceled already_served no_ticket : CancelOutcome

abbrev pub includes_source : KitchenTicketSource → List KitchenTicketSource → Bool
includes_source s [] = false
includes_source s (t ∷ ts) = same_source t s || includes_source s ts

-- `{ source: { in: [...sources] }, sourceReference, tenantId }`
abbrev pub is_from : TicketCancellation → KitchenTicket → Bool
is_from c t =
    includes_source t.source c.sources
    && (t.source_reference == c.source_reference && t.tenant_id == c.tenant_id)

abbrev pub has_status : Uuid → Uuid → KitchenTicketStatus → KitchenTicket → Bool
has_status tenant id status t = t.id == id && (same_status t.status status && t.tenant_id == tenant)

abbrev pub as_canceled : Instant → KitchenTicket → KitchenTicket
as_canceled at t = record t { canceled_at = some at; status = canceled; updated_at = at }

-- What the ticket came to where it was no longer in the status that was read.
abbrev raced_outcome : Option KitchenTicket → Action CancelOutcome
raced_outcome none = throw Fault.ticket_changed
raced_outcome (some t) =
    if same_status t.status served
    then pure already_served
    else if same_status t.status canceled
    then pure already_canceled
    else throw Fault.ticket_changed

abbrev pub recheck : TicketCancellation → KitchenTicket → Action CancelOutcome
recheck c t = do
  current ← gets (λ db.
      find (λ (k : KitchenTicket). k.id == t.id && k.tenant_id == c.tenant_id) db.kitchen.tickets)
  raced_outcome current

abbrev mark_canceled : TicketCancellation → KitchenTicket → Action CancelOutcome
mark_canceled c t = do
  record_history (record {
    ticket_id = t.id;
    tenant_id = c.tenant_id;
    from_status = some t.status;
    to_status = canceled;
    actor_id = c.actor_id;
    occurred_at = c.at;
  })
  pure was_canceled

unfoldable pub cancel_open : TicketCancellation → KitchenTicket → Action CancelOutcome
cancel_open c t = do
  count ← gets (λ db. count_where (has_status c.tenant_id t.id t.status) db.kitchen.tickets)
  modify (λ db. record db {
    kitchen = record db.kitchen {
      tickets =
          update_many (has_status c.tenant_id t.id t.status) (as_canceled c.at) db.kitchen.tickets;
    };
  })
  if count == 1 then mark_canceled c t else recheck c t

abbrev pub cancel_found : TicketCancellation → Option KitchenTicket → Action CancelOutcome
cancel_found c none = pure no_ticket
cancel_found c (some t) =
    if same_status t.status canceled
    then pure already_canceled
    else if same_status t.status served
    then pure already_served
    else cancel_open c t

unfoldable pub cancel_by_source : TicketCancellation → Action CancelOutcome
unfolding cancel_open
cancel_by_source c =
    transaction
      (do ticket ← gets (λ db. find (is_from c) db.kitchen.tickets); cancel_found c ticket)

-- `{ id, outletId, tenantId }`
abbrev pub is_at : TicketMove → KitchenTicket → Bool
is_at m t = t.id == m.id && (t.outlet_id == m.outlet_id && t.tenant_id == m.tenant_id)

abbrev pub is_still : TicketMove → KitchenTicket → Bool
is_still m t = is_at m t && same_status t.status m.from

abbrev pub as_moved : TicketMove → KitchenTicket → KitchenTicket
as_moved m t = stamp m.to m.at (record t { status = m.to; updated_at = m.at })

abbrev emit_option : TicketMove → Option EventType → Action (Unit {0})
emit_option m none = pure tt
emit_option m (some type) =
    emit (record {
      type = type;
      aggregate_id = m.id;
      outlet_id = m.outlet_id;
      tenant_id = m.tenant_id;
    })

abbrev pub move_found : TicketMove → ℕ → Option KitchenTicket → Action TicketMoveResult
move_found m count none = pure missing
move_found m count (some t) = if not (count == 1) then pure (stale t) else (do
  record_history (record {
    ticket_id = m.id;
    tenant_id = m.tenant_id;
    from_status = some m.from;
    to_status = m.to;
    actor_id = m.actor_id;
    occurred_at = m.at;
  })
  emit_option m m.event_type
  pure (moved t))

unfoldable pub move : TicketMove → Action TicketMoveResult
move m = transaction (do
  count ← gets (λ db. count_where (is_still m) db.kitchen.tickets)
  modify (λ db. record db {
    kitchen = record db.kitchen {
      tickets = update_many (is_still m) (as_moved m) db.kitchen.tickets;
    };
  })
  ticket ← gets (λ db. find (is_at m) db.kitchen.tickets)
  move_found m count ticket)
