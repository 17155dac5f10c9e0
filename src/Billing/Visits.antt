-- ===== src/Billing/Visits.antt =====
-- `recordSessionPayment` of
-- apps/api/src/kernels/billing-payment-ledger/adapters/prisma-billing.repository.ts: every unpaid
-- order of a table visit, paid at once.
use merchant_operations_plat.Prelude.{
  Bool, true, not, ◌&&◌, Option, none, some, List, [], ◌∷◌, map, Uuid, ok, err, find, filter, any,
  contains, ◌==◌, if◌then◌else◌,
}
use merchant_operations_plat.Prelude.Int.{◌==ℤ◌}
use merchant_operations_plat.Contracts.Orders.{is_canceled, is_order_approved}
use merchant_operations_plat.Contracts.Billing.{
  BillStatus, PaymentStatus, is_bill_unpaid, is_verifying, same_method,
}
use merchant_operations_plat.Database.{Order, Bill, Payment}
use merchant_operations_plat.Database.Tables.{update_many, count_where}
use merchant_operations_plat.Database.Faults.{
  Fault, idempotency_key_reused, record_not_found, unique_violation, session_bill_mismatch,
  claim_changed,
}
use merchant_operations_plat.Database.Action.{
  Action, pure, gets, or_throw, ◌>>=◌, ◌>>◌, throw_if, modify, transaction, handle_unique,
}
use merchant_operations_plat.Billing.{
  MutationContext, SessionBillLine, SessionPayment, SessionCheckout, SessionCheckoutRecord,
  SessionPaymentOutcome,
}
use merchant_operations_plat.Billing.Store.{
  is_open_shift, has_key, in_visit, ensure_visit_orders, find_session_checkout_by_idempotency_key,
}
use merchant_operations_plat.Billing.Writes.{
  BillHeader, bill_for, settle_bill, create_payment, complete_sale,
}

-- `replay.checkouts.some(({ bill }) => bill.tableSessionId !== visitId)`
abbrev pub is_other_visit : Uuid → SessionCheckoutRecord → Bool
is_other_visit visit r = any (λ c. not (in_visit visit c.bill.table_session_id)) r.checkouts

-- The order lock: approved, not canceled, of this outlet.
abbrev is_lockable : Uuid → Uuid → Uuid → Order → Bool
is_lockable tenant outlet id o =
    o.id == id
    && (o.outlet_id == outlet
        && (is_order_approved o.moderation_status
            && (not (is_canceled o.status) && o.tenant_id == tenant)))

-- `for (const line of payment.bills)`: is each order still there to be paid?
unfoldable all_lockable : Uuid → Uuid → List SessionBillLine → List Order → Bool
all_lockable tenant outlet [] orders = true
all_lockable tenant outlet (line ∷ lines) orders =
    count_where (is_lockable tenant outlet line.order_id) orders == 1
    && all_lockable tenant outlet lines orders

abbrev order_ids_of : List SessionBillLine → List Uuid
order_ids_of = map (λ line. line.order_id)

abbrev pub header_of : SessionPayment → BillHeader
header_of p = record {
  charges = p.charges;
  currency = p.currency;
  outlet_id = p.outlet_id;
  tenant_id = p.tenant_id;
  table_session_id = some p.table_session_id;
}

abbrev pub as_paid : SessionPayment → SessionBillLine → Bill → Bill
as_paid p line b = record b {
  paid_minor = line.total_minor;
  status = BillStatus.paid;
  table_session_id = some p.table_session_id;
}

-- The second loop: bills are made where none was and settled; their identifiers are kept.
unfoldable settle_lines : SessionPayment → List Bill → List SessionBillLine → Action (List Uuid)
settle_lines p existing [] = pure []
settle_lines p existing (line ∷ lines) = do
  bill_id ← bill_for (header_of p) line (find (λ (b : Bill). b.order_id == line.order_id) existing)
  settled ← settle_bill (as_paid p line) p.tenant_id bill_id line.total_minor
  throw_if (not (settled == 1)) session_bill_mismatch
  rest ← settle_lines p existing lines
  pure (bill_id ∷ rest)

abbrev pub payment_row : MutationContext → SessionPayment → Uuid → Payment
payment_row context p id = record {
  id = id;
  tenant_id = p.tenant_id;
  outlet_id = p.outlet_id;
  register_session_id = some p.register_session_id;
  method = p.method;
  amount_minor = p.total_minor;
  tendered_minor = p.tendered_minor;
  status = PaymentStatus.paid;
  reference = p.reference;
  actor_id = some context.actor_id;
  confirmed_by = some context.actor_id;
  confirmed_at = some context.now;
  created_at = context.now;
  idempotency_key = p.idempotency_key;
  table_session_id = none;
}

-- The claim as the cashier saw it: still waiting, for this amount, method and visit.
abbrev is_confirmable : SessionPayment → Uuid → Payment → Bool
is_confirmable p claim row =
    row.amount_minor ==ℤ p.total_minor
    && (row.id == claim
        && (same_method row.method p.method
            && (row.outlet_id == p.outlet_id
                && (is_verifying row.status
                    && (in_visit p.table_session_id row.table_session_id
                        && row.tenant_id == p.tenant_id)))))

abbrev as_confirmed : MutationContext → SessionPayment → Payment → Payment
as_confirmed context p row = record row {
  actor_id = some context.actor_id;
  confirmed_at = some context.now;
  confirmed_by = some context.actor_id;
  idempotency_key = p.idempotency_key;
  reference = p.reference;
  register_session_id = some p.register_session_id;
  status = PaymentStatus.paid;
}

-- The key of the payment is another row's: the confirmation would violate the unique index.
abbrev is_key_taken : SessionPayment → Uuid → Payment → Bool
is_key_taken p claim row =
    has_key p.tenant_id p.outlet_id p.idempotency_key row && not (row.id == claim)

-- The payment: the guest's claim, or a new row.
unfoldable take_payment : MutationContext → SessionPayment → Option Uuid → Action Payment
take_payment context p none = create_payment (payment_row context p)
take_payment context p (some claim) = do
  taken ← gets (λ db. any (is_key_taken p claim) db.payments)
  confirmed ← gets (λ db. count_where (is_confirmable p claim) db.payments)
  throw_if (taken && not (confirmed == 0)) unique_violation
  modify (λ db. record db {
    payments = update_many (is_confirmable p claim) (as_confirmed context p) db.payments;
  })
  throw_if (not (confirmed == 1)) claim_changed
  or_throw
      (← gets (λ db.
        find (λ (row : Payment). row.id == claim && row.tenant_id == p.tenant_id) db.payments))
      record_not_found

-- The last loop, over the lines and the identifiers of their bills.
unfoldable complete_sales :
    MutationContext
    → SessionPayment
    → Payment
    → List SessionBillLine
    → List Uuid
    → Action (List SessionCheckout)
unfolding complete_sale
complete_sales context p paid [] ids = pure []
complete_sales context p paid (line ∷ lines) [] = pure []
complete_sales context p paid (line ∷ lines) (bill_id ∷ ids) = do
  (bill, sale) ← complete_sale context p.tenant_id p.outlet_id line.total_minor paid bill_id
  rest ← complete_sales context p paid lines ids
  pure (record { bill = bill; sale = sale } ∷ rest)

unfoldable pay_lines : MutationContext → SessionPayment → Action SessionPaymentOutcome
unfolding settle_lines take_payment complete_sales
pay_lines context p = do
  existing ← gets (λ db.
      filter
        (λ (b : Bill). contains b.order_id (order_ids_of p.bills) && b.tenant_id == p.tenant_id)
        db.bills)
  if any (λ (b : Bill). not (is_bill_unpaid b.status)) existing
      then pure SessionPaymentOutcome.bill_already_paid
      else (do
        ids ← settle_lines p existing p.bills
        paid ← take_payment context p p.claim_id
        checkouts ← complete_sales context p paid p.bills ids
        pure (SessionPaymentOutcome.recorded (record { checkouts = checkouts; payment = paid })))

abbrev pub replay_or :
    SessionPayment
    → Option SessionCheckoutRecord
    → Action SessionPaymentOutcome
    → Action SessionPaymentOutcome
replay_or p none otherwise = otherwise
replay_or p (some r) otherwise = do
  throw_if (is_other_visit p.table_session_id r) idempotency_key_reused
  pure (SessionPaymentOutcome.recorded r)

unfoldable session_payment_transaction :
    MutationContext → SessionPayment → Action SessionPaymentOutcome
unfolding pay_lines all_lockable ensure_visit_orders find_session_checkout_by_idempotency_key
session_payment_transaction context p = do
  replay ← gets (find_session_checkout_by_idempotency_key p.tenant_id p.outlet_id p.idempotency_key)
  replay_or p replay (do
    ensure_visit_orders p.tenant_id p.outlet_id p.table_session_id (order_ids_of p.bills)
    shifts ← gets (λ db.
        count_where (is_open_shift p.tenant_id p.outlet_id p.register_session_id)
          db.register_sessions)
    if not (shifts == 1) then pure SessionPaymentOutcome.shift_not_open else (do
      lockable ← gets (λ db. all_lockable p.tenant_id p.outlet_id p.bills db.orders)
      if not lockable then pure SessionPaymentOutcome.order_canceled else pay_lines context p))

abbrev pub replay_outcome : Option SessionCheckoutRecord → SessionPaymentOutcome
replay_outcome none = SessionPaymentOutcome.bill_already_paid
replay_outcome (some r) = SessionPaymentOutcome.recorded r

-- The `catch` of the transaction.
abbrev handle : SessionPayment → Fault → Action SessionPaymentOutcome
handle p session_bill_mismatch = pure SessionPaymentOutcome.bill_already_paid
handle p claim_changed = pure SessionPaymentOutcome.claim_changed
handle p e = handle_unique e (
    gets (λ db.
      replay_outcome
        (find_session_checkout_by_idempotency_key p.tenant_id p.outlet_id p.idempotency_key db)))

unfoldable pub record_session_payment :
    MutationContext → SessionPayment → Action SessionPaymentOutcome
unfolding session_payment_transaction
record_session_payment context p db =
    let (r, db') = transaction (session_payment_transaction context p) db in
    elim r [ ok outcome ↦ (ok outcome, db') | err e ↦ handle p e db' ]
