-- ===== src/Billing/Service.antt =====
-- apps/api/src/kernels/billing-payment-ledger/application/billing.service.ts. Amounts are read
-- from integer texts as ℤ; the parse of an outgoing record by its schema is not modelled.
pub mod Visit
pub mod Refund
use merchant_operations_plat.Prelude.{
  ℕ, Bool, true, false, not, ◌&&◌, ◌||◌, Option, none, some, List, [], ◌∷◌, ◌++◌, map, Uuid, Text,
  Result, find, filter, any, contains, ◌==◌, if◌then◌else◌,
}
use merchant_operations_plat.Prelude.Int.{ℤ, pos, ◌+ℤ◌, ◌-ℤ◌, ◌==ℤ◌, leb_ℤ, ltb_ℤ}
use merchant_operations_plat.Contracts.Charges.{OutletCharges, ChargeBreakdown, compute_charges}
use merchant_operations_plat.Contracts.Orders.{
  OrderStatus, OrderModerationStatus, is_canceled, is_order_approved,
}
use merchant_operations_plat.Contracts.Billing.{
  PaymentMethod, PaymentStatus, cash, merchant_qris, transfer, edc, other, is_verifying,
}
use merchant_operations_plat.Database.{Payment}
use merchant_operations_plat.Database.Faults
use merchant_operations_plat.Database.Faults.{Fault}
use merchant_operations_plat.Database.Action.{
  Action, pure, throw, gets, or_throw, ◌>>=◌, ◌>>◌, throw_if,
}
use merchant_operations_plat.Billing.{
  MutationContext, CheckoutRecord, FullPayment, FullPaymentOutcome, SessionBillLine, SessionPayment,
  SessionCheckoutRecord, SessionPaymentOutcome, NewPaymentClaim, PaymentClaimRecord, NewRefund,
  RefundOutcome, ReplayedRefund, SaleRefundsRecord, bill_total, cash_change,
}
use merchant_operations_plat.Billing.Store.{
  find_checkout_by_idempotency_key, find_session_checkout_by_idempotency_key,
  find_refund_by_idempotency_key, refunds_of_sale, sum_refunds, sum_payments, sum_shift_refunds,
}
use merchant_operations_plat.Billing.Payments.{record_full_payment}
use merchant_operations_plat.Billing.Visits.{record_session_payment, is_other_visit}
use merchant_operations_plat.Billing.Claims.{claim_payment, find_claim, reject_claim}
use merchant_operations_plat.Billing.Refunds.{record_refund}

pub record PayableOrder : Type 0 where
  pub moderation_status : OrderModerationStatus
  pub currency : Text
  pub id : Uuid
  pub status : OrderStatus
  pub subtotal_minor : ℤ

pub data NonCash : Type 0 where
  qris bank_transfer card others : NonCash

abbrev method_of : NonCash → PaymentMethod
method_of qris = merchant_qris
method_of bank_transfer = transfer
method_of card = edc
method_of others = other

-- How it is paid: cash with what was handed over, or another method with its reference.
pub data Tender : Type 0 where
  by_cash : ℤ → Tender
  by_other : NonCash → Option Text → Tender

pub record PayOrder : Type 0 where
  pub tender : Tender
  pub expected_total_minor : Option ℤ

abbrev pub tender_method : Tender → PaymentMethod
tender_method (by_cash _) = cash
tender_method (by_other m _) = method_of m

abbrev pub tendered_of : Tender → Option ℤ
tendered_of (by_cash t) = some t
tendered_of (by_other _ _) = none

abbrev pub reference_of : Tender → Option Text
reference_of (by_cash _) = none
reference_of (by_other _ r) = r

-- `Checkout`: the stored rows and the change derived from them.
pub record Checkout : Type 0 where
  pub stored : CheckoutRecord
  pub change_minor : Option ℤ

abbrev change_of : Payment → Option ℤ
change_of p = elim p.tendered_minor [ none ↦ none | some t ↦ cash_change t p.amount_minor ]

abbrev to_checkout : CheckoutRecord → Checkout
to_checkout r = record { stored = r; change_minor = change_of r.payment }

pub record SessionCheckoutView : Type 0 where
  pub stored : SessionCheckoutRecord
  pub change_minor : Option ℤ

abbrev pub to_session_checkout : SessionCheckoutRecord → SessionCheckoutView
to_session_checkout r = record { stored = r; change_minor = change_of r.payment }

pub record SaleRefunds : Type 0 where
  pub refundable_minor : ℤ
  pub stored : SaleRefundsRecord

unfoldable pub to_sale_refunds : SaleRefundsRecord → SaleRefunds
to_sale_refunds r = record {
  refundable_minor = r.sale.total_minor -ℤ sum_refunds r.refunds;
  stored = r;
}

-- `BigInt(subtotal)` under the outlet's charges; a negative subtotal is a `RangeError`.
abbrev pub charged : ℤ → OutletCharges → Action ChargeBreakdown
charged subtotal charges = elim (compute_charges subtotal charges) [
  | Result.ok parts ↦ pure parts
  | Result.err e ↦ throw Fault.range_error
]

abbrev pub total_of : ChargeBreakdown → ℤ
total_of parts = bill_total (record {
  discount_minor = none;
  rounding_minor = none;
  service_charge_minor = some parts.service_charge_minor;
  subtotal_minor = parts.base_minor;
  tax_minor = some parts.tax_minor;
})

-- `pay.expectedTotalMinor !== undefined && BigInt(pay.expectedTotalMinor) !== totalMinor`
abbrev pub is_unexpected : Option ℤ → ℤ → Bool
is_unexpected none total = false
is_unexpected (some e) total = not (e ==ℤ total)

-- `tenderedMinor !== null && cashChange(tenderedMinor, totalMinor) === null`
abbrev pub is_short : Option ℤ → ℤ → Bool
is_short none total = false
is_short (some t) total = elim (cash_change t total) [ none ↦ true | some _ ↦ false ]

pub record PayOrderInput : Type 0 where
  pub charges : OutletCharges
  pub idempotency_key : Text
  pub order : PayableOrder
  pub outlet_id : Uuid
  pub pay : PayOrder
  pub register_session_id : Uuid
  pub tenant_id : Uuid

abbrev full_payment_of : PayOrderInput → ChargeBreakdown → FullPayment
full_payment_of input parts = record {
  charges = input.charges;
  currency = input.order.currency;
  idempotency_key = input.idempotency_key;
  method = tender_method input.pay.tender;
  order_id = input.order.id;
  outlet_id = input.outlet_id;
  reference = reference_of input.pay.tender;
  register_session_id = input.register_session_id;
  service_charge_minor = parts.service_charge_minor;
  subtotal_minor = parts.base_minor;
  tax_minor = parts.tax_minor;
  tenant_id = input.tenant_id;
  tendered_minor = tendered_of input.pay.tender;
  total_minor = total_of parts;
}

abbrev checkout_of : FullPaymentOutcome → Action Checkout
checkout_of (FullPaymentOutcome.recorded c) = pure (to_checkout c)
checkout_of FullPaymentOutcome.bill_already_paid = throw Fault.bill_already_paid
checkout_of FullPaymentOutcome.order_canceled = throw Fault.order_canceled
checkout_of FullPaymentOutcome.shift_not_open = throw Fault.pos_shift_not_open

-- The part of `payOrderInFull` that takes new money.
unfoldable charge_order : PayOrderInput → MutationContext → Action Checkout
unfolding record_full_payment compute_charges cash_change bill_total
charge_order input context = do
  throw_if (is_canceled input.order.status) Fault.order_canceled
  throw_if (not (is_order_approved input.order.moderation_status)) Fault.self_order_pending
  parts ← charged input.order.subtotal_minor input.charges
  throw_if (leb_ℤ (total_of parts) (pos 0)) Fault.bill_nothing_to_pay
  throw_if (is_unexpected input.pay.expected_total_minor (total_of parts)) Fault.order_total_changed
  throw_if (is_short (tendered_of input.pay.tender) (total_of parts))
      Fault.payment_tendered_insufficient
  outcome ← record_full_payment context (full_payment_of input parts)
  checkout_of outcome

abbrev replay_checkout : Uuid → Option CheckoutRecord → Action Checkout → Action Checkout
replay_checkout order none otherwise = otherwise
replay_checkout order (some r) otherwise = do
  throw_if (not (r.bill.order_id == order)) Fault.idempotency_key_reused
  pure (to_checkout r)

unfoldable pay_order_in_full : PayOrderInput → MutationContext → Action Checkout
unfolding charge_order find_checkout_by_idempotency_key
pay_order_in_full input context = do
  replayed ←
      gets (find_checkout_by_idempotency_key input.tenant_id input.outlet_id input.idempotency_key)
  replay_checkout input.order.id replayed (charge_order input context)
