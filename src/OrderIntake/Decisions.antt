-- ===== src/OrderIntake/Decisions.antt =====
-- apps/api/src/kernels/order-intake/adapters/prisma-order.repository.ts: an order is canceled,
-- decided on, or moved along by the kitchen.
pub mod Progress
use merchant_operations_plat.Prelude.{
  ℕ, ◌+◌, Bool, true, false, not, ◌&&◌, ◌||◌, Option, none, some, List, [], ◌∷◌, ◌++◌, map, Uuid,
  Text, Instant, Result, find, any, ◌==◌, if◌then◌else◌,
}
use merchant_operations_plat.Contracts.Orders.{
  OrderSource, OrderType, OrderStatus, OrderModerationStatus, submitted, canceled, not_required,
  pending, rejected, is_canceled, is_order_approved, is_submitted, is_pending, is_self_order,
  same_source,
}
use merchant_operations_plat.Database.{
  Db, Order, OrderItem, OrderItemModifier, AuditAction, EventType,
}
use merchant_operations_plat.Database.Tables.{update_many, count_where}
use merchant_operations_plat.Database.Faults.{Fault}
use merchant_operations_plat.Database.Action.{
  Action, pure, throw, gets, or_throw, ◌>>=◌, ◌>>◌, throw_if, modify, new_id, audit, emit,
  transaction, catch_unique,
}
use merchant_operations_plat.Billing.{MutationContext}
use merchant_operations_plat.Billing.Store.{upsert_counter}
use merchant_operations_plat.OrderIntake.Pricing.{PricedLine, PricedModifier}
use merchant_operations_plat.OrderIntake.Fulfillment.{includes}
use merchant_operations_plat.OrderIntake.Orders.{order_by_id}

abbrev pub as_canceled : MutationContext → Text → Bool → Order → Order
as_canceled context reason was_pending o =
    let moderated =
      if was_pending
      then record o {
        moderation_status = rejected;
        moderated_at = some context.now;
        moderated_by = some context.actor_id;
      }
      else o in
    record moderated {
      cancel_reason = some reason;
      canceled_at = some context.now;
      canceled_by = some context.actor_id;
      status = canceled;
    }

-- `{ id, outletId, status: { not: "CANCELED" }, tenantId }`
abbrev pub is_live : Uuid → Uuid → Uuid → Order → Bool
is_live tenant outlet id o =
    o.id == id && (o.outlet_id == outlet && (not (is_canceled o.status) && o.tenant_id == tenant))

-- An order that is missing or was canceled before is returned as it is.
unfoldable pub cancel :
    Uuid → Uuid → Uuid → Text → Action (Unit {0}) → MutationContext → Action (Option Order)
cancel tenant outlet id reason ensure_cancellable context = transaction (do
  lock ← gets (λ db. count_where (is_live tenant outlet id) db.orders)
  if not (lock == 1) then gets (λ db. find (order_by_id tenant outlet id) db.orders) else (do
    ensure_cancellable
    current ←
        or_throw (← gets (λ db. find (order_by_id tenant outlet id) db.orders))
          Fault.record_not_found
    modify (λ db. record db {
      orders =
          update_many (order_by_id tenant outlet id)
            (as_canceled context reason (is_pending current.moderation_status)) db.orders;
    })
    audit (record {
      action = AuditAction.order_cancel;
      actor_id = some context.actor_id;
      entity_id = id;
      outlet_id = outlet;
      tenant_id = tenant;
    })
    emit (record {
      type = EventType.order_canceled;
      aggregate_id = id;
      outlet_id = outlet;
      tenant_id = tenant;
    })
    canceled_order ←
        or_throw
          (← gets (λ db. find (λ (o : Order). o.id == id && o.tenant_id == tenant) db.orders))
          Fault.record_not_found
    pure (some canceled_order)))

pub data Decision : Type 0 where
  accept reject : Decision

abbrev pub decided : Decision → OrderModerationStatus → Bool
decided accept OrderModerationStatus.accepted = true
decided reject rejected = true
decided _ _ = false

abbrev as_decided : MutationContext → Decision → Option Text → Order → Order
as_decided context accept reason o = record o {
  moderation_status = OrderModerationStatus.accepted;
  moderated_at = some context.now;
  moderated_by = some context.actor_id;
}
as_decided context reject reason o = record o {
  moderation_status = rejected;
  moderated_at = some context.now;
  moderated_by = some context.actor_id;
  status = canceled;
  canceled_at = some context.now;
  canceled_by = some context.actor_id;
  cancel_reason = reason;
}

abbrev decision_action : Decision → AuditAction
decision_action accept = AuditAction.order_guest_accept
decision_action reject = AuditAction.order_guest_reject

abbrev decision_event : Decision → EventType
decision_event accept = EventType.order_submitted
decision_event reject = EventType.order_canceled

-- The visit of a guest's order that still waits for its decision.
abbrev awaiting_visit : Order → Option Uuid
awaiting_visit o =
    if is_self_order o.source && (is_pending o.moderation_status && is_submitted o.status)
    then o.table_session_id
    else none

abbrev pub order_in_tenant : Uuid → Uuid → Order → Bool
order_in_tenant tenant id o = o.id == id && o.tenant_id == tenant

unfoldable write_decision :
    (Uuid → Action (Unit {0}))
    → Uuid
    → Uuid
    → Uuid
    → Decision
    → Option Text
    → MutationContext
    → Order
    → Action (Option Order)
write_decision ensure_open tenant outlet id decision reason context current = do
  visit ← or_throw (awaiting_visit current) Fault.self_order_already_decided
  ensure_open visit
  modify (λ db. record db {
    orders = update_many (order_in_tenant tenant id) (as_decided context decision reason) db.orders;
  })
  audit (record {
    action = decision_action decision;
    actor_id = some context.actor_id;
    entity_id = id;
    outlet_id = outlet;
    tenant_id = tenant;
  })
  emit (record {
    type = decision_event decision;
    aggregate_id = id;
    outlet_id = outlet;
    tenant_id = tenant;
  })
  updated ←
      or_throw (← gets (λ db. find (order_in_tenant tenant id) db.orders)) Fault.record_not_found
  pure (some updated)

abbrev decide_found :
    (Uuid → Action (Unit {0}))
    → Uuid
    → Uuid
    → Uuid
    → Decision
    → Option Text
    → MutationContext
    → Option Order
    → Action (Option Order)
decide_found ensure_open tenant outlet id decision reason context none = pure none
decide_found ensure_open tenant outlet id decision reason context (some current) =
    if decided decision current.moderation_status
    then pure (some current)
    else write_decision ensure_open tenant outlet id decision reason context current

unfoldable pub decide_guest_order :
    (Uuid → Action (Unit {0}))
    → Uuid
    → Uuid
    → Uuid
    → Decision
    → Option Text
    → MutationContext
    → Action (Option Order)
unfolding write_decision
decide_guest_order ensure_open tenant outlet id decision reason context = transaction (do
  before ← gets (λ db. find (order_by_id tenant outlet id) db.orders)
  decide_found ensure_open tenant outlet id decision reason context before)

pub data Moved : Type 0 where
  moved unchanged missing : Moved

-- `{ id, moderationStatus: { in: [...] }, status: { in: [...from] }, tenantId }`
abbrev pub is_movable : Uuid → Uuid → List OrderStatus → Order → Bool
is_movable tenant id from o =
    o.id == id
    && (is_order_approved o.moderation_status && (includes o.status from && o.tenant_id == tenant))

abbrev pub with_status : OrderStatus → Order → Order
with_status status o = record o { status = status }

unfoldable pub move_status : Uuid → Uuid → List OrderStatus → OrderStatus → Action Moved
move_status tenant id from to = do
  count ← gets (λ db. count_where (is_movable tenant id from) db.orders)
  modify (λ db. record db {
    orders = update_many (is_movable tenant id from) (with_status to) db.orders;
  })
  exists ← gets (λ db. any (order_in_tenant tenant id) db.orders)
  pure (if count == 1 then moved else if exists then unchanged else missing)
