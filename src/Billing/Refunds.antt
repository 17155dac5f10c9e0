-- ===== src/Billing/Refunds.antt =====
-- `recordRefund` of
-- apps/api/src/kernels/billing-payment-ledger/adapters/prisma-billing.repository.ts.
pub mod Booked
pub mod Within
use merchant_operations_plat.Prelude.{
  not, ◌&&◌, Option, none, some, [], ◌∷◌, ◌++◌, Uuid, find, any, ◌==◌, if◌then◌else◌,
}
use merchant_operations_plat.Prelude.Int.{ℤ, ◌-ℤ◌, ltb_ℤ, ◌==ℤ◌}
use merchant_operations_plat.Contracts.Billing.{SaleStatus}
use merchant_operations_plat.Database.{Sale, Refund, AuditAction, EventType}
use merchant_operations_plat.Database.Tables.{update_many, count_where}
use merchant_operations_plat.Database.Faults.{unique_violation, record_not_found}
use merchant_operations_plat.Database.Action.{
  Action, pure, throw, gets, or_throw, ◌>>=◌, ◌>>◌, throw_if, modify, new_id, audit, emit,
  transaction, catch_unique,
}
use merchant_operations_plat.Billing.{MutationContext, NewRefund, RefundOutcome, ReplayedRefund}
use merchant_operations_plat.Billing.Store.{
  is_open_shift, sale_by_id, refunds_of_sale, sum_refunds, find_refund_by_idempotency_key,
}

abbrev pub refund_row : MutationContext → NewRefund → Uuid → Refund
refund_row context r id = record {
  id = id;
  tenant_id = r.tenant_id;
  outlet_id = r.outlet_id;
  sale_id = r.sale_id;
  payment_id = r.payment_id;
  register_session_id = r.register_session_id;
  method = r.method;
  amount_minor = r.amount_minor;
  reason = r.reason;
  actor_id = context.actor_id;
  approved_by = r.approved_by;
  idempotency_key = r.idempotency_key;
  created_at = context.now;
}

-- `saleRefund.create`; the key is unique in an outlet.
abbrev create_refund : Refund → Action (Unit {0})
create_refund row = do
  taken ← gets (λ db.
      any
        (λ (r : Refund).
          r.idempotency_key == row.idempotency_key
          && (r.outlet_id == row.outlet_id && r.tenant_id == row.tenant_id))
        db.refunds)
  throw_if taken unique_violation
  modify (λ db. record db { refunds = db.refunds ++ row ∷ [] })

abbrev pub with_status : SaleStatus → Sale → Sale
with_status status s = record s { status = status }

-- `sale.update({ data: { status }, where: { id } })`, with the updated row.
abbrev update_sale : Uuid → Uuid → SaleStatus → Action Sale
update_sale tenant id status = do
  modify
      (λ db. record db { sales = update_many (sale_by_id tenant id) (with_status status) db.sales })
  or_throw (← gets (λ db. find (sale_by_id tenant id) db.sales)) record_not_found

abbrev pub status_after : ℤ → ℤ → SaleStatus
status_after amount refundable =
    if amount ==ℤ refundable then SaleStatus.refunded else SaleStatus.partially_refunded

-- Once the shift and the sale are locked.
unfoldable pub book_refund : MutationContext → NewRefund → ℤ → Action RefundOutcome
unfolding refunds_of_sale
book_refund context r refundable = do
  id ← new_id
  create_refund (refund_row context r id)
  updated ← update_sale r.tenant_id r.sale_id (status_after r.amount_minor refundable)
  audit (record {
    action = AuditAction.sale_refund;
    actor_id = some context.actor_id;
    entity_id = r.sale_id;
    outlet_id = r.outlet_id;
    tenant_id = r.tenant_id;
  })
  emit (record {
    type = EventType.sale_refunded;
    aggregate_id = r.sale_id;
    outlet_id = r.outlet_id;
    tenant_id = r.tenant_id;
  })
  refunds ← gets (refunds_of_sale r.tenant_id r.sale_id)
  pure (RefundOutcome.recorded (record { refunds = refunds; sale = updated }))

unfoldable pub refund_transaction : MutationContext → NewRefund → Action RefundOutcome
unfolding book_refund
refund_transaction context r = do
  shifts ← gets (λ db.
      count_where (is_open_shift r.tenant_id r.outlet_id r.register_session_id)
        db.register_sessions)
  if not (shifts == 1) then pure RefundOutcome.shift_not_open else (do
    sale ←
        or_throw (← gets (λ db. find (sale_by_id r.tenant_id r.sale_id) db.sales)) record_not_found
    refunded ← gets (λ db. sum_refunds (refunds_of_sale r.tenant_id r.sale_id db))
    let refundable = sale.total_minor -ℤ refunded
    if ltb_ℤ refundable r.amount_minor
        then pure (RefundOutcome.exceeds_refundable refundable)
        else book_refund context r refundable)

abbrev pub replay_refund : Option ReplayedRefund → Action RefundOutcome
replay_refund none = throw unique_violation
replay_refund (some replayed) = pure (RefundOutcome.recorded replayed.result)

unfoldable pub record_refund : MutationContext → NewRefund → Action RefundOutcome
unfolding refund_transaction find_refund_by_idempotency_key
record_refund context r = catch_unique (transaction (refund_transaction context r)) (do
  replayed ← gets (find_refund_by_idempotency_key r.tenant_id r.outlet_id r.idempotency_key)
  replay_refund replayed)
