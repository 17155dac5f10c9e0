-- ===== src/OrderIntake/Orders.antt =====
-- apps/api/src/kernels/order-intake/adapters/prisma-order.repository.ts: an order is submitted,
-- once for its key.
use merchant_operations_plat.Prelude.{
  ℕ, Bool, true, false, not, ◌&&◌, ◌||◌, Option, none, some, List, [], ◌∷◌, ◌++◌, map, Uuid, Text,
  Instant, Result, find, ◌==◌, if◌then◌else◌,
}
use merchant_operations_plat.Contracts.Orders.{
  OrderSource, OrderType, OrderModerationStatus, submitted, not_required, pending, is_pending,
  is_self_order, same_source,
}
use merchant_operations_plat.Database.{Order, OrderItem, OrderItemModifier, AuditAction, EventType}
use merchant_operations_plat.Database.Faults.{Fault}
use merchant_operations_plat.Database.Action.{
  Action, pure, throw, gets, ◌>>=◌, ◌>>◌, throw_if, modify, new_id, audit, emit, transaction,
  catch_unique,
}
use merchant_operations_plat.Billing.Store.{upsert_counter}
use merchant_operations_plat.OrderIntake.Pricing.{PricedLine, PricedModifier}

-- `OrderSubmitContext`: guests have no actor.
pub record SubmitContext : Type 0 where
  pub actor_id : Option Uuid
  pub now : Instant

pub record NewSubmittedOrder : Type 0 where
  pub currency : Text
  pub idempotency_key : Text
  pub lines : List PricedLine
  pub note : Option Text
  pub order_type : OrderType
  pub outlet_id : Uuid
  pub source : OrderSource
  pub table_session_id : Option Uuid
  pub tenant_id : Uuid

abbrev pub order_by_id : Uuid → Uuid → Uuid → Order → Bool
order_by_id tenant outlet id o = o.id == id && (o.outlet_id == outlet && o.tenant_id == tenant)

abbrev pub has_key : Uuid → Uuid → Text → Order → Bool
has_key tenant outlet key o =
    o.idempotency_key == key && (o.outlet_id == outlet && o.tenant_id == tenant)

abbrev pub same_visit : Option Uuid → Option Uuid → Bool
same_visit none none = true
same_visit (some a) (some b) = a == b
same_visit _ _ = false

-- `existing.tableSessionId !== order.tableSessionId || existing.source !== order.source`
abbrev pub is_other_context : Option Uuid → OrderSource → Order → Bool
is_other_context visit source o =
    not (same_visit o.table_session_id visit) || not (same_source o.source source)

abbrev pub modifier_row : PricedModifier → OrderItemModifier
modifier_row m = record {
  group_name_snapshot = m.group_name;
  option_name_snapshot = m.option_name;
  price_delta_minor = m.price_delta_minor;
}

abbrev item_row : PricedLine → OrderItem
item_row l = record {
  line_total_minor = l.line_total_minor;
  modifiers = map modifier_row l.modifiers;
  name_snapshot = l.name;
  note = l.note;
  product_id = l.product_id;
  quantity = l.quantity;
  unit_price_minor = l.unit_price_minor;
  variant_name_snapshot = l.variant_name;
}

-- Guests' orders wait for a decision of the staff.
abbrev pub moderation_of : OrderSource → OrderModerationStatus
moderation_of source = if is_self_order source then pending else not_required

abbrev pub order_row : SubmitContext → NewSubmittedOrder → ℕ → Uuid → Order
order_row context o number id = record {
  id = id;
  tenant_id = o.tenant_id;
  outlet_id = o.outlet_id;
  order_number = number;
  source = o.source;
  order_type = o.order_type;
  status = submitted;
  moderation_status = moderation_of o.source;
  moderated_at = none;
  moderated_by = none;
  currency = o.currency;
  note = o.note;
  submitted_at = some context.now;
  actor_id = context.actor_id;
  canceled_at = none;
  canceled_by = none;
  cancel_reason = none;
  idempotency_key = o.idempotency_key;
  table_session_id = o.table_session_id;
  items = map item_row o.lines;
}

-- `orderNumberCounter.upsert`: the outlet's next order number.
abbrev next_order_number : Uuid → Uuid → Action ℕ
next_order_number tenant outlet db =
    let (n, counters) = upsert_counter tenant outlet db.order_counters in
    (Result.ok n, record db { order_counters = counters })

abbrev emit_if : Bool → Action (Unit {0}) → Action (Unit {0})
emit_if true m = m
emit_if false m = pure tt

-- A table order runs the guard on its visit.
abbrev pub guard_visit : (Uuid → Action (Unit {0})) → Option Uuid → Action (Unit {0})
guard_visit ensure_open none = pure tt
guard_visit ensure_open (some visit) = ensure_open visit

unfoldable pub insert_order : SubmitContext → NewSubmittedOrder → Action Order
insert_order context o = do
  number ← next_order_number o.tenant_id o.outlet_id
  id ← new_id
  let created = order_row context o number id
  modify (λ db. record db { orders = db.orders ++ created ∷ [] })
  audit (record {
    action = AuditAction.order_submit;
    actor_id = context.actor_id;
    entity_id = id;
    outlet_id = o.outlet_id;
    tenant_id = o.tenant_id;
  })
  emit_if (not (is_pending created.moderation_status)) (
      emit (record {
        type = EventType.order_submitted;
        aggregate_id = id;
        outlet_id = o.outlet_id;
        tenant_id = o.tenant_id;
      }))
  pure created

abbrev pub replay_or : NewSubmittedOrder → Option Order → Action Order → Action Order
replay_or o none otherwise = otherwise
replay_or o (some existing) otherwise = do
  throw_if (is_other_context o.table_session_id o.source existing) Fault.idempotency_key_conflict
  pure existing

-- The body of the transaction.
unfoldable pub submit_transaction :
    (Uuid → Action (Unit {0})) → SubmitContext → NewSubmittedOrder → Action Order
unfolding insert_order
submit_transaction ensure_open context o = do
  replay ← gets (λ db. find (has_key o.tenant_id o.outlet_id o.idempotency_key) db.orders)
  replay_or o replay (do guard_visit ensure_open o.table_session_id; insert_order context o)

unfoldable pub create_submitted :
    (Uuid → Action (Unit {0})) → SubmitContext → NewSubmittedOrder → Action Order
unfolding submit_transaction
create_submitted ensure_open context o =
    catch_unique (transaction (submit_transaction ensure_open context o)) (do
      existing ← gets (λ db. find (has_key o.tenant_id o.outlet_id o.idempotency_key) db.orders)
      replay_or o existing (throw Fault.unique_violation))
