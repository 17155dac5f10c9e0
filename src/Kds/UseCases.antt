-- ===== src/Kds/UseCases.antt =====
-- apps/api/src/modules/kds/application (create, advance and cancel a ticket), the reactions to
-- orders in adapters/order-events.handler.ts, and the orders that the kitchen reads
-- (apps/api/src/kernel-wiring.module.ts).
use merchant_operations_plat.Prelude.{
  Bool, not, Option, none, some, List, [], ◌∷◌, map, Uuid, Text, Instant, ◌==◌, if◌then◌else◌,
}
use merchant_operations_plat.Digits.{Chars, to_text}
use merchant_operations_plat.Contracts.Orders.{is_self_order, is_canceled, is_order_approved}
use merchant_operations_plat.Contracts.Kds.{
  KitchenTicketSource, KitchenTicketStatus, same_status, pos, self_order,
}
use merchant_operations_plat.Database.{Order, OrderItem, OrderItemModifier}
use merchant_operations_plat.Database.Faults.{Fault}
use merchant_operations_plat.Database.Action.{
  Action, pure, throw, or_throw, ◌>>=◌, ◌>>◌, throw_if, none_if_not_found,
}
use merchant_operations_plat.OrderIntake.Service.{get_order}
use merchant_operations_plat.Kds.Ticket.{KitchenTicket, KitchenTicketItem}
use merchant_operations_plat.Kds.TicketStatus.{next_status, status_event}
use merchant_operations_plat.Kds.Tickets.{NewKitchenTicket, create}
use merchant_operations_plat.Kds.Moves.{
  TicketMove, TicketMoveResult, missing, stale, moved, CancelOutcome, cancel_by_source, move,
}

abbrev pub advanced : KitchenTicketStatus → TicketMoveResult → Action KitchenTicket
advanced to missing = throw Fault.kitchen_ticket_not_found
advanced to (stale t) =
    throw_if (not (same_status t.status to)) (Fault.kitchen_ticket_status_changed t.status)
    >> pure t
advanced to (moved t) = pure t

abbrev pub move_to :
    Uuid
    → Uuid
    → Uuid
    → KitchenTicketStatus
    → Option Uuid
    → Instant
    → KitchenTicketStatus
    → TicketMove
move_to tenant outlet id expected actor now to = record {
  at = now;
  event_type = status_event to;
  from = expected;
  id = id;
  actor_id = actor;
  outlet_id = outlet;
  tenant_id = tenant;
  to = to;
}

-- `AdvanceKitchenTicket.execute`
unfoldable pub advance_ticket :
    Uuid → Uuid → Uuid → KitchenTicketStatus → Option Uuid → Instant → Action KitchenTicket
unfolding move
advance_ticket tenant outlet id expected actor now = do
  to ← or_throw (next_status expected) Fault.kitchen_ticket_finished
  result ← move (move_to tenant outlet id expected actor now to)
  advanced to result

-- `CancelKitchenTicket.execute`
unfoldable pub cancel_ticket :
    Uuid → List KitchenTicketSource → Text → Option Uuid → Instant → Action CancelOutcome
unfolding cancel_by_source
cancel_ticket tenant sources reference actor now = cancel_by_source (record {
  at = now;
  actor_id = actor;
  source_reference = reference;
  sources = sources;
  tenant_id = tenant;
})

pub record KitchenOrder : Type 0 where
  pub canceled : Bool
  pub approved : Bool
  pub items : List KitchenTicketItem
  pub order_label : Chars
  pub source : KitchenTicketSource
  pub table_label : Option Text

-- The part of an event's envelope that the kitchen reads; `order_id` is none where the payload
-- does not name the order.
pub record OrderEvent : Type 0 where
  pub workspace_id : Uuid
  pub location_id : Option Uuid
  pub order_id : Option Uuid
  pub actor_id : Option Uuid
  pub occurred_at : Instant

-- What the handler answers for the inbox.
pub data Reaction : Type 0 where
  skipped_order_canceled skipped_order_not_approved : Reaction
  created existing : Uuid → Reaction

abbrev option_names : Option Text → List OrderItemModifier → List Text
option_names none ms = map (λ (m : OrderItemModifier). m.option_name_snapshot) ms
option_names (some variant) ms =
    variant ∷ map (λ (m : OrderItemModifier). m.option_name_snapshot) ms

abbrev to_item : OrderItem → KitchenTicketItem
to_item i = record {
  allergy_note = none;
  modifiers = option_names i.variant_name_snapshot i.modifiers;
  name = i.name_snapshot;
  note = i.note;
  quantity = i.quantity;
}

abbrev pub to_kitchen_order : Order → Option Text → KitchenOrder
to_kitchen_order o table = record {
  canceled = is_canceled o.status;
  approved = is_order_approved o.moderation_status;
  items = map to_item o.items;
  order_label = b'#' ∷ to_text o.order_number;
  source = if is_self_order o.source then self_order else pos;
  table_label = table;
}

abbrev pub cancel_sources : List KitchenTicketSource
cancel_sources = pos ∷ self_order ∷ []

-- `table_label` is the port to the table visits, `record_usage` that to the metering.
module _ (table_label : Uuid → Uuid → Uuid → Action (Option Text))
    (record_usage : Uuid → KitchenTicket → Action (Unit {0})) where
  -- `CreateKitchenTicket.execute` on a parsed command.
  unfoldable pub create_ticket : NewKitchenTicket → Action (Bool × KitchenTicket)
  unfolding create
  create_ticket n = do
    result ← create n
    throw_if (not (result.1.outlet_id == n.outlet_id)) Fault.kitchen_ticket_reference_used
    record_usage n.tenant_id result.1
    pure result

  abbrev pub label_of_visit : Uuid → Uuid → Option Uuid → Action (Option Text)
  label_of_visit tenant outlet none = pure none
  label_of_visit tenant outlet (some visit) = table_label tenant outlet visit

  abbrev pub kitchen_order_of : Uuid → Uuid → Option Order → Action (Option KitchenOrder)
  kitchen_order_of tenant outlet none = pure none
  kitchen_order_of tenant outlet (some o) = do
    label ← label_of_visit tenant outlet o.table_session_id
    pure (some (to_kitchen_order o label))

  unfoldable pub kitchen_order : Uuid → Uuid → Uuid → Action (Option KitchenOrder)
  unfolding get_order
  kitchen_order tenant outlet id = do
    order ← none_if_not_found (get_order tenant outlet id)
    kitchen_order_of tenant outlet order

  abbrev pub ticket_for : OrderEvent → Uuid → Uuid → KitchenOrder → NewKitchenTicket
  ticket_for event outlet id o = record {
    actor_id = event.actor_id;
    items = o.items;
    order_label = o.order_label;
    outlet_id = outlet;
    received_at = event.occurred_at;
    source = o.source;
    source_reference = id;
    table_label = o.table_label;
    tenant_id = event.workspace_id;
  }

  abbrev pub react : OrderEvent → Uuid → Uuid → KitchenOrder → Action Reaction
  react event outlet id o =
      if o.canceled
      then pure skipped_order_canceled
      else if not o.approved
      then pure skipped_order_not_approved
      else (do
        result ← create_ticket (ticket_for event outlet id o)
        pure (if result.0 then created result.1.id else existing result.1.id))

  unfoldable pub on_submitted : OrderEvent → Action Reaction
  unfolding kitchen_order create_ticket
  on_submitted event = do
    id ← or_throw event.order_id Fault.blocked_event
    outlet ← or_throw event.location_id Fault.blocked_event
    found ← kitchen_order event.workspace_id outlet id
    o ← or_throw found Fault.blocked_event
    react event outlet id o

unfoldable pub on_canceled : OrderEvent → Action CancelOutcome
unfolding cancel_ticket
on_canceled event = do
  id ← or_throw event.order_id Fault.blocked_event
  cancel_ticket event.workspace_id cancel_sources id event.actor_id event.occurred_at
