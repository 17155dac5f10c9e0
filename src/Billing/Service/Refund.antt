-- ===== src/Billing/Service/Refund.antt =====
-- The refunds and the sums of a shift of
-- apps/api/src/kernels/billing-payment-ledger/application/billing.service.ts.
use merchant_operations_plat.Prelude.{
  not, ◌&&◌, Option, none, some, List, [], ◌∷◌, Uuid, Text, find, filter, length, ◌==◌,
  if◌then◌else◌,
}
use merchant_operations_plat.Prelude.Int.{ℤ, pos, ◌-ℤ◌, ltb_ℤ}
use merchant_operations_plat.Contracts.Billing.{
  PaymentMethod, cash, merchant_qris, transfer, edc, other, is_bill_paid,
}
use merchant_operations_plat.Database.{Db, Allocation}
use merchant_operations_plat.Database.Faults.{Fault}
use merchant_operations_plat.Database.Action.{
  Action, pure, throw, gets, or_throw, ◌>>=◌, ◌>>◌, throw_if,
}
use merchant_operations_plat.Billing.{
  MutationContext, CheckoutRecord, NewRefund, RefundOutcome, ReplayedRefund,
  ReceiptAllocationSource,
}
use merchant_operations_plat.Billing.Store.{
  ◌>?◌, find_refund_by_idempotency_key, sum_payments, sum_shift_refunds, sale_of_bill,
  bill_of_order,
}
use merchant_operations_plat.Billing.Refunds.{record_refund}
use merchant_operations_plat.Billing.Service.{SaleRefunds, to_sale_refunds}

-- `findPaidCheckoutByOrder`: the paid bill of the order with its first allocation, the payment of
-- that, which has a cashier, and the sale.
pub record PaidCheckoutRecord : Type 0 where
  pub checkout : CheckoutRecord
  pub cashier_id : Uuid
  pub allocation : ReceiptAllocationSource

unfoldable pub find_paid_checkout_by_order : Uuid → Uuid → Uuid → Db → Option PaidCheckoutRecord
find_paid_checkout_by_order tenant outlet order db =
    find (λ b. bill_of_order tenant order b && (b.outlet_id == outlet && is_bill_paid b.status))
      db.bills
    >? λ bill.
        find (λ (a : Allocation). a.bill_id == bill.id && a.tenant_id == tenant) db.allocations
        >? λ a. find (λ p. p.id == a.payment_id && p.tenant_id == tenant) db.payments >? λ payment.
            find (sale_of_bill tenant bill.id) db.sales >? λ sale. payment.actor_id >? λ cashier.
            some (record {
              checkout = record { bill = bill; payment = payment; sale = sale };
              cashier_id = cashier;
              allocation = record {
                allocated_minor = a.amount_minor;
                bill_allocation_count = length (
                    filter (λ (x : Allocation). x.bill_id == bill.id && x.tenant_id == tenant)
                      db.allocations);
                payment_allocation_count = length (
                    filter (λ (x : Allocation). x.payment_id == payment.id && x.tenant_id == tenant)
                      db.allocations);
                bill_paid_minor = bill.paid_minor;
                bill_total_minor = bill.total_minor;
                payment_amount_minor = payment.amount_minor;
              };
            })

pub record RefundInput : Type 0 where
  pub approved_by : Option Uuid
  pub idempotency_key : Text
  pub order_id : Uuid
  pub outlet_id : Uuid
  pub amount_minor : ℤ
  pub reason : Text
  pub register_session_id : Uuid
  pub tenant_id : Uuid

abbrev new_refund_of : RefundInput → CheckoutRecord → NewRefund
new_refund_of input paid = record {
  amount_minor = input.amount_minor;
  approved_by = input.approved_by;
  idempotency_key = input.idempotency_key;
  method = paid.payment.method;
  outlet_id = input.outlet_id;
  payment_id = paid.payment.id;
  reason = input.reason;
  register_session_id = input.register_session_id;
  sale_id = paid.sale.id;
  tenant_id = input.tenant_id;
}

abbrev refunds_or : RefundOutcome → Action SaleRefunds
refunds_or (RefundOutcome.recorded r) = pure (to_sale_refunds r)
refunds_or (RefundOutcome.exceeds_refundable left) = throw (Fault.refund_exceeds_refundable left)
refunds_or RefundOutcome.shift_not_open = throw Fault.pos_shift_not_open

-- The part of `refundOrder` that gives new money back.
unfoldable refund_paid : RefundInput → MutationContext → Action SaleRefunds
unfolding find_paid_checkout_by_order record_refund to_sale_refunds
refund_paid input context = do
  paid ←
      or_throw (← gets (find_paid_checkout_by_order input.tenant_id input.outlet_id input.order_id))
        Fault.order_not_paid
  outcome ← record_refund context (new_refund_of input paid.checkout)
  refunds_or outcome

abbrev pub replay_refund : Uuid → Option ReplayedRefund → Action SaleRefunds → Action SaleRefunds
replay_refund order none otherwise = otherwise
replay_refund order (some r) otherwise = do
  throw_if (not (r.order_id == order)) Fault.idempotency_key_reused
  pure (to_sale_refunds r.result)

unfoldable pub refund_order : RefundInput → MutationContext → Action SaleRefunds
unfolding refund_paid find_refund_by_idempotency_key
refund_order input context = do
  replayed ←
      gets (find_refund_by_idempotency_key input.tenant_id input.outlet_id input.idempotency_key)
  replay_refund input.order_id replayed (refund_paid input context)

pub record NonCashSum : Type 0 where
  pub amount_minor : ℤ
  pub method : PaymentMethod

pub record ShiftPayments : Type 0 where
  pub cash_minor : ℤ
  pub cash_refunds_minor : ℤ
  pub non_cash : List NonCashSum

abbrev non_cash_order : List PaymentMethod
non_cash_order = merchant_qris ∷ transfer ∷ edc ∷ other ∷ []

-- `NON_CASH_ORDER.flatMap(...)`: the methods with something taken.
unfoldable non_cash_sums : Uuid → Uuid → Db → List PaymentMethod → List NonCashSum
unfolding sum_payments
non_cash_sums tenant shift db [] = []
non_cash_sums tenant shift db (m ∷ ms) =
    let amount = sum_payments tenant shift m db.payments in
    let rest = non_cash_sums tenant shift db ms in
    if ltb_ℤ (pos 0) amount then record { amount_minor = amount; method = m } ∷ rest else rest

unfoldable pub payments_in_session : Uuid → Uuid → Db → ShiftPayments
unfolding non_cash_sums sum_payments sum_shift_refunds
payments_in_session tenant shift db = record {
  cash_minor = sum_payments tenant shift cash db.payments;
  cash_refunds_minor = sum_shift_refunds tenant shift cash db.refunds;
  non_cash = non_cash_sums tenant shift db non_cash_order;
}

unfoldable pub cash_received_in_session : Uuid → Uuid → Db → ℤ
unfolding payments_in_session
cash_received_in_session tenant shift db =
    let taken = payments_in_session tenant shift db in taken.cash_minor -ℤ taken.cash_refunds_minor
