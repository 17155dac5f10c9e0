-- ===== src/Billing/Payments.antt =====
-- `recordFullPayment` of
-- apps/api/src/kernels/billing-payment-ledger/adapters/prisma-billing.repository.ts.
pub mod Settled
pub mod Keyed
pub mod Guards
pub mod Recorded
pub mod Completes
use merchant_operations_plat.Prelude.{
  Bool, not, ◌&&◌, Option, none, some, Uuid, find, ◌==◌, if◌then◌else◌,
}
use merchant_operations_plat.Contracts.Orders.{is_canceled, is_order_approved}
use merchant_operations_plat.Contracts.Billing.{BillStatus, PaymentStatus}
use merchant_operations_plat.Database.{Order, Bill, Payment}
use merchant_operations_plat.Database.Tables.{count_where}
use merchant_operations_plat.Database.Faults.{record_not_found, self_order_pending}
use merchant_operations_plat.Database.Action.{
  Action, pure, gets, or_throw, ◌>>=◌, ◌>>◌, throw_if, transaction, catch_unique,
}
use merchant_operations_plat.Billing.{
  MutationContext, CheckoutRecord, FullPayment, FullPaymentOutcome, SessionBillLine,
}
use merchant_operations_plat.Billing.Store.{
  is_open_shift, bill_of_order, find_checkout_by_idempotency_key,
}
use merchant_operations_plat.Billing.Writes.{
  BillHeader, bill_for, settle_bill, create_payment, complete_sale,
}

-- `{ id, outletId, status: { not: "CANCELED" }, tenantId }`
abbrev pub is_payable : Uuid → Uuid → Uuid → Order → Bool
is_payable tenant outlet id o =
    o.id == id && (o.outlet_id == outlet && (not (is_canceled o.status) && o.tenant_id == tenant))

abbrev pub order_by_id : Uuid → Uuid → Uuid → Order → Bool
order_by_id tenant outlet id o = o.id == id && (o.outlet_id == outlet && o.tenant_id == tenant)

abbrev pub header_of : FullPayment → BillHeader
header_of p = record {
  charges = p.charges;
  currency = p.currency;
  outlet_id = p.outlet_id;
  tenant_id = p.tenant_id;
  table_session_id = none;
}

abbrev pub bill_line_of : FullPayment → SessionBillLine
bill_line_of p = record {
  order_id = p.order_id;
  service_charge_minor = p.service_charge_minor;
  subtotal_minor = p.subtotal_minor;
  tax_minor = p.tax_minor;
  total_minor = p.total_minor;
}

abbrev pub payment_row : MutationContext → FullPayment → Uuid → Payment
payment_row context p id = record {
  id = id;
  tenant_id = p.tenant_id;
  outlet_id = p.outlet_id;
  register_session_id = some p.register_session_id;
  method = p.method;
  amount_minor = p.total_minor;
  tendered_minor = p.tendered_minor;
  status = PaymentStatus.paid;
  reference = p.reference;
  actor_id = some context.actor_id;
  confirmed_by = some context.actor_id;
  confirmed_at = some context.now;
  created_at = context.now;
  idempotency_key = p.idempotency_key;
  table_session_id = none;
}

-- `data: { paidMinor: payment.totalMinor, status: "PAID" }`
abbrev pub as_paid : FullPayment → Bill → Bill
as_paid p b = record b { paid_minor = p.total_minor; status = BillStatus.paid }

-- Once the bill is settled.
unfoldable pub book_payment : MutationContext → FullPayment → Uuid → Action FullPaymentOutcome
unfolding complete_sale
book_payment context p bill_id = do
  paid ← create_payment (payment_row context p)
  (bill, sale) ← complete_sale context p.tenant_id p.outlet_id p.total_minor paid bill_id
  pure (FullPaymentOutcome.recorded (record { bill = bill; payment = paid; sale = sale }))

-- The bill is settled if it is unpaid and its total is the expected one.
unfoldable pub settle_and_book : MutationContext → FullPayment → Uuid → Action FullPaymentOutcome
unfolding book_payment
settle_and_book context p bill_id = do
  settled ← settle_bill (as_paid p) p.tenant_id bill_id p.total_minor
  if not (settled == 1)
      then pure FullPaymentOutcome.bill_already_paid
      else book_payment context p bill_id

-- From the bill on: it is made if need be.
unfoldable pub pay_bill : MutationContext → FullPayment → Action FullPaymentOutcome
unfolding settle_and_book
pay_bill context p = do
  existing ← gets (λ db. find (bill_of_order p.tenant_id p.order_id) db.bills)
  bill_id ← bill_for (header_of p) (bill_line_of p) existing
  settle_and_book context p bill_id

unfoldable pub full_payment_transaction : MutationContext → FullPayment → Action FullPaymentOutcome
unfolding pay_bill
full_payment_transaction context p = do
  shifts ← gets (λ db.
      count_where (is_open_shift p.tenant_id p.outlet_id p.register_session_id)
        db.register_sessions)
  if not (shifts == 1) then pure FullPaymentOutcome.shift_not_open else (do
    orders ← gets (λ db. count_where (is_payable p.tenant_id p.outlet_id p.order_id) db.orders)
    if not (orders == 1) then pure FullPaymentOutcome.order_canceled else (do
      locked ←
          or_throw (← gets (λ db. find (order_by_id p.tenant_id p.outlet_id p.order_id) db.orders))
            record_not_found
      throw_if (not (is_order_approved locked.moderation_status)) self_order_pending
      pay_bill context p))

abbrev pub replay_outcome : Option CheckoutRecord → FullPaymentOutcome
replay_outcome none = FullPaymentOutcome.bill_already_paid
replay_outcome (some c) = FullPaymentOutcome.recorded c

unfoldable pub record_full_payment : MutationContext → FullPayment → Action FullPaymentOutcome
unfolding full_payment_transaction find_checkout_by_idempotency_key
record_full_payment context p = catch_unique (transaction (full_payment_transaction context p)) (
    gets (λ db.
      replay_outcome
        (find_checkout_by_idempotency_key p.tenant_id p.outlet_id p.idempotency_key db)))
