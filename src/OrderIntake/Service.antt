-- ===== src/OrderIntake/Service.antt =====
-- apps/api/src/kernels/order-intake/application/order-intake.service.ts. The menu is what the
-- catalog offers at the outlet; `ensure_open` is the port to the table visits.
use merchant_operations_plat.Prelude.{Option, none, some, List, Uuid, Text, Result, find}
use merchant_operations_plat.Contracts.Orders.{OrderSource, OrderType, dine_in}
use merchant_operations_plat.Database.{Db, Order}
use merchant_operations_plat.Database.Faults.{Fault}
use merchant_operations_plat.Database.Action.{Action, pure, throw, gets, ◌>>=◌, ◌>>◌, throw_if}
use merchant_operations_plat.Billing.{MutationContext}
use merchant_operations_plat.OrderIntake.Pricing.{
  MenuProduct, RequestedLine, PricedOrder, price_order_lines,
}
use merchant_operations_plat.OrderIntake.Fulfillment.{KitchenProgress, to_status, statuses_before}
use merchant_operations_plat.OrderIntake.Orders.{
  SubmitContext, NewSubmittedOrder, order_by_id, has_key, is_other_context, create_submitted,
}
use merchant_operations_plat.OrderIntake.Decisions.{
  Decision, Moved, decide_guest_order, move_status,
}
use merchant_operations_plat.OrderIntake.Decisions

pub record OrderInput : Type 0 where
  pub items : List RequestedLine
  pub note : Option Text
  pub order_type : OrderType

abbrev pub new_order :
    Uuid → Uuid → OrderInput → Option Uuid → OrderSource → Text → PricedOrder → NewSubmittedOrder
new_order tenant outlet input visit source key priced = record {
  currency = priced.currency;
  idempotency_key = key;
  lines = priced.lines;
  note = input.note;
  order_type = input.order_type;
  outlet_id = outlet;
  source = source;
  table_session_id = visit;
  tenant_id = tenant;
}

module _ (ensure_open : Uuid → Action (Unit {0})) (menu : Uuid → Uuid → Db → List MenuProduct) where
  -- The part of `submit` that takes a new order.
  unfoldable pub take_order :
      Uuid → Uuid → OrderInput → Option Uuid → OrderSource → Text → SubmitContext → Action Order
  unfolding price_order_lines create_submitted
  take_order tenant outlet input visit source key context = do
    products ← gets (menu tenant outlet)
    elim (price_order_lines products input.items) [
      | Result.err failed ↦ throw (Fault.line_refused failed)
      | Result.ok priced ↦
          create_submitted ensure_open context
            (new_order tenant outlet input visit source key priced)
    ]

  unfoldable pub submit :
      Uuid → Uuid → OrderInput → Option Uuid → OrderSource → Text → SubmitContext → Action Order
  unfolding take_order
  submit tenant outlet input visit source key context = do
    existing ← gets (λ db. find (has_key tenant outlet key) db.orders)
    elim existing [
      | none ↦ take_order tenant outlet input visit source key context
      | some o ↦ throw_if (is_other_context visit source o) Fault.idempotency_key_conflict >> pure o
    ]

  unfoldable pub submit_pos_order : Uuid → Uuid → OrderInput → Text → SubmitContext → Action Order
  unfolding submit
  submit_pos_order tenant outlet input key context =
      submit tenant outlet input none OrderSource.pos key context

  unfoldable pub submit_table_order :
      Uuid → Uuid → Uuid → OrderInput → Text → SubmitContext → OrderSource → Action Order
  unfolding submit
  submit_table_order tenant outlet visit input key context source =
      submit tenant outlet (record input { order_type = dine_in }) (some visit) source key context

abbrev found_or : Option Order → Action Order
found_or none = throw Fault.order_not_found
found_or (some o) = pure o

unfoldable decide_order :
    (Uuid → Action (Unit {0}))
    → Uuid
    → Uuid
    → Uuid
    → Decision
    → Option Text
    → MutationContext
    → Action Order
unfolding decide_guest_order
decide_order ensure_open tenant outlet id decision reason context = do
  order ← decide_guest_order ensure_open tenant outlet id decision reason context
  found_or order

unfoldable pub cancel_order :
    Uuid → Uuid → Uuid → Text → Action (Unit {0}) → MutationContext → Action Order
unfolding Decisions.cancel
cancel_order tenant outlet id reason ensure_cancellable context = do
  order ← Decisions.cancel tenant outlet id reason ensure_cancellable context
  found_or order

unfoldable pub record_kitchen_progress : Uuid → Uuid → KitchenProgress → Action Moved
unfolding move_status statuses_before
record_kitchen_progress tenant id progress =
    move_status tenant id (statuses_before progress) (to_status progress)

unfoldable pub get_order : Uuid → Uuid → Uuid → Action Order
get_order tenant outlet id = do
  order ← gets (λ db. find (order_by_id tenant outlet id) db.orders)
  found_or order
