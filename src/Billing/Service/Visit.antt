-- ===== src/Billing/Service/Visit.antt =====
-- The table visits of apps/api/src/kernels/billing-payment-ledger/application/billing.service.ts:
-- one payment for all orders of a visit, and the guests' claims that they paid.
use merchant_operations_plat.Prelude.{
  true, false, not, Option, none, some, List, [], ◌∷◌, map, Uuid, Text, any, ◌==◌,
}
use merchant_operations_plat.Prelude.Int.{ℤ, pos, ◌+ℤ◌, leb_ℤ}
use merchant_operations_plat.Contracts.Charges.{OutletCharges, ChargeBreakdown, compute_charges}
use merchant_operations_plat.Contracts.Orders.{is_canceled, is_order_approved}
use merchant_operations_plat.Contracts.Billing.{PaymentMethod, is_verifying}
use merchant_operations_plat.Database.Faults.{Fault}
use merchant_operations_plat.Database.Action.{Action, pure, throw, gets, ◌>>=◌, ◌>>◌, throw_if}
use merchant_operations_plat.Database.{Db}
use merchant_operations_plat.Billing.{
  MutationContext, SessionBillLine, SessionPayment, SessionCheckoutRecord, SessionPaymentOutcome,
  NewPaymentClaim, PaymentClaimRecord, cash_change, bill_total,
}
use merchant_operations_plat.Billing.Store.{find_session_checkout_by_idempotency_key}
use merchant_operations_plat.Billing.Visits.{record_session_payment, is_other_visit}
use merchant_operations_plat.Billing.Claims.{claim_payment, find_claim}
use merchant_operations_plat.Billing.Claims
use merchant_operations_plat.Billing.Service.{
  PayableOrder, PayOrder, SessionCheckoutView, to_session_checkout, charged, total_of,
  is_unexpected, is_short, tender_method, tendered_of, reference_of,
}

abbrev pub line_of : PayableOrder → ChargeBreakdown → SessionBillLine
line_of order parts = record {
  order_id = order.id;
  service_charge_minor = parts.service_charge_minor;
  subtotal_minor = parts.base_minor;
  tax_minor = parts.tax_minor;
  total_minor = total_of parts;
}

-- `orders.map((order) => ...)`: each order's charges as they are now.
unfoldable bill_lines : OutletCharges → List PayableOrder → Action (List SessionBillLine)
unfolding compute_charges bill_total
bill_lines charges [] = pure []
bill_lines charges (order ∷ orders) = do
  parts ← charged order.subtotal_minor charges
  rest ← bill_lines charges orders
  pure (line_of order parts ∷ rest)

abbrev sum_totals : List SessionBillLine → ℤ
sum_totals [] = pos 0
sum_totals (l ∷ ls) = l.total_minor +ℤ sum_totals ls

pub record SessionBills : Type 0 where
  pub bills : List SessionBillLine
  pub currency : Text
  pub total_minor : ℤ

-- `sessionBills`, on the currency of the first order.
abbrev session_bills_in : Text → List PayableOrder → OutletCharges → Action SessionBills
session_bills_in currency orders charges = do
  throw_if (any (λ o. is_canceled o.status) orders) Fault.order_canceled
  throw_if (any (λ o. not (is_order_approved o.moderation_status)) orders) Fault.self_order_pending
  throw_if (any (λ o. not (o.currency == currency)) orders) Fault.bill_currency_mixed
  bills ← bill_lines charges orders
  throw_if (leb_ℤ (sum_totals bills) (pos 0)) Fault.bill_nothing_to_pay
  pure (record { bills = bills; currency = currency; total_minor = sum_totals bills })

unfoldable session_bills : List PayableOrder → OutletCharges → Action SessionBills
unfolding bill_lines
session_bills [] charges = throw Fault.table_session_nothing_to_pay
session_bills (o ∷ orders) charges = session_bills_in o.currency (o ∷ orders) charges

pub record PayVisitInput : Type 0 where
  pub charges : OutletCharges
  pub idempotency_key : Text
  pub orders : List PayableOrder
  pub outlet_id : Uuid
  pub pay : PayOrder
  pub register_session_id : Uuid
  pub table_session_id : Uuid
  pub tenant_id : Uuid
  pub claim_id : Option Uuid

abbrev session_payment_of : PayVisitInput → SessionBills → SessionPayment
session_payment_of input b = record {
  charges = input.charges;
  currency = b.currency;
  idempotency_key = input.idempotency_key;
  method = tender_method input.pay.tender;
  outlet_id = input.outlet_id;
  reference = reference_of input.pay.tender;
  register_session_id = input.register_session_id;
  tenant_id = input.tenant_id;
  tendered_minor = tendered_of input.pay.tender;
  bills = b.bills;
  table_session_id = input.table_session_id;
  total_minor = b.total_minor;
  claim_id = input.claim_id;
}

abbrev visit_checkout_of : SessionPaymentOutcome → Action SessionCheckoutView
visit_checkout_of (SessionPaymentOutcome.recorded r) = pure (to_session_checkout r)
visit_checkout_of SessionPaymentOutcome.bill_already_paid = throw Fault.bill_already_paid
visit_checkout_of SessionPaymentOutcome.claim_changed = throw Fault.payment_claim_changed
visit_checkout_of SessionPaymentOutcome.order_canceled = throw Fault.order_canceled
visit_checkout_of SessionPaymentOutcome.shift_not_open = throw Fault.pos_shift_not_open

-- The part of `payTableSessionInFull` that takes new money.
unfoldable charge_visit : PayVisitInput → MutationContext → Action SessionCheckoutView
unfolding session_bills record_session_payment cash_change
charge_visit input context = do
  b ← session_bills input.orders input.charges
  throw_if (is_unexpected input.pay.expected_total_minor b.total_minor) Fault.order_total_changed
  throw_if (is_short (tendered_of input.pay.tender) b.total_minor)
      Fault.payment_tendered_insufficient
  outcome ← record_session_payment context (session_payment_of input b)
  visit_checkout_of outcome

abbrev replay_visit :
    Uuid → Option SessionCheckoutRecord → Action SessionCheckoutView → Action SessionCheckoutView
replay_visit visit none otherwise = otherwise
replay_visit visit (some r) otherwise = do
  throw_if (is_other_visit visit r) Fault.idempotency_key_reused
  pure (to_session_checkout r)

unfoldable pay_table_session_in_full : PayVisitInput → MutationContext → Action SessionCheckoutView
unfolding charge_visit find_session_checkout_by_idempotency_key
pay_table_session_in_full input context = do
  replayed ← gets (
      find_session_checkout_by_idempotency_key input.tenant_id input.outlet_id
        input.idempotency_key)
  replay_visit input.table_session_id replayed (charge_visit input context)

pub record ClaimInput : Type 0 where
  pub charges : OutletCharges
  pub idempotency_key : Text
  pub method : PaymentMethod
  pub orders : List PayableOrder
  pub outlet_id : Uuid
  pub table_session_id : Uuid
  pub tenant_id : Uuid

abbrev claim_of : ClaimInput → SessionBills → NewPaymentClaim
claim_of input b = record {
  order_ids = map (λ (o : PayableOrder). o.id) input.orders;
  amount_minor = b.total_minor;
  idempotency_key = input.idempotency_key;
  method = input.method;
  outlet_id = input.outlet_id;
  table_session_id = input.table_session_id;
  tenant_id = input.tenant_id;
}

unfoldable claim_table_session_payment : ClaimInput → MutationContext → Action PaymentClaimRecord
unfolding session_bills claim_payment
claim_table_session_payment input context = do
  b ← session_bills input.orders input.charges
  claim_payment context (claim_of input b)

abbrev if_verifying : Option PaymentClaimRecord → Option PaymentClaimRecord
if_verifying none = none
if_verifying (some c) = elim (is_verifying c.status) [ true ↦ some c | false ↦ none ]

unfoldable verifying_claim : Uuid → Uuid → Uuid → Db → Option PaymentClaimRecord
unfolding find_claim
verifying_claim tenant outlet id db = if_verifying (find_claim tenant outlet id db)

abbrev rejected_or : Option PaymentClaimRecord → Action PaymentClaimRecord
rejected_or none = throw Fault.payment_claim_changed
rejected_or (some c) = pure c

unfoldable pub reject_claim : Uuid → Uuid → Uuid → MutationContext → Action PaymentClaimRecord
unfolding Claims.reject_claim
reject_claim tenant outlet id context = do
  rejected ← Claims.reject_claim tenant outlet id context
  rejected_or rejected
