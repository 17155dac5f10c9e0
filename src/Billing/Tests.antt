-- ===== src/Billing/Tests.antt =====
-- The billing theorems on a small shop.
use merchant_operations_plat.Prelude.{◌≡◌, ◌⊎◌, refl, arith, true, false, none, some, [], ok}
use merchant_operations_plat.Prelude.Int.{pos, ◌+ℤ◌}
use merchant_operations_plat.Contracts.Charges.{
  OutletCharges, ChargeBreakdown, divide_rounded, compute_charges,
}
use merchant_operations_plat.Contracts.Billing.{cash, merchant_qris}
use merchant_operations_plat.Database.{Db}
use merchant_operations_plat.Database.Samples.{sample_order, sample_bill, unpaid_shop, paid_shop}
use merchant_operations_plat.Billing.{
  MutationContext, CheckoutRecord, FullPayment, FullPaymentOutcome, NewRefund, NewPaymentClaim,
  ReceiptAllocationSource, receipt_allocation,
}
use merchant_operations_plat.Billing.Store.{refunds_of_sale}
use merchant_operations_plat.Database.Tables.{Pairwise}
use merchant_operations_plat.Billing.Claims.{claim_payment, reject_claim}
use merchant_operations_plat.Billing.Claims.Waiting.{
  IsWaitingOnce, Rejected, claim_payment-IsWaitingOnce, reject_claim-Rejected,
}
use merchant_operations_plat.Billing.Amounts.{total_of-compute_charges}
use merchant_operations_plat.Billing.{receipt_allocation}
use merchant_operations_plat.Billing.Service.{total_of}
use merchant_operations_plat.Billing.Payments.{record_full_payment}
use merchant_operations_plat.Billing.Payments.Keyed.{IsKeyed}
use merchant_operations_plat.Billing.Payments.Guards.{
  Allowed, record_full_payment_once, record_full_payment-Allowed,
}
use merchant_operations_plat.Billing.Payments.Recorded.{Recorded, record_full_payment-Outcome}
use merchant_operations_plat.Billing.Payments.Completes.{record_full_payment-ok, IsStorable}
use merchant_operations_plat.Billing.Refunds.{record_refund}
use merchant_operations_plat.Billing.Refunds.Within.{
  IsRefundedWithin, record_refund-IsRefundedWithin,
}

abbrev no_charges : OutletCharges
no_charges = record { included = true; service_charge_rate_bp = 0; tax_rate_bp = 0 }

abbrev cashier : MutationContext
cashier = record { actor_id = 9; now = 20 }

abbrev sample_payment : FullPayment
sample_payment = record {
  charges = no_charges;
  currency = 0;
  idempotency_key = 60;
  method = cash;
  order_id = 3;
  outlet_id = 2;
  reference = none;
  register_session_id = 4;
  service_charge_minor = pos 0;
  subtotal_minor = pos 100;
  tax_minor = pos 0;
  tenant_id = 1;
  tendered_minor = some (pos 120);
  total_minor = pos 100;
}

abbrev sample_refund : NewRefund
sample_refund = record {
  amount_minor = pos 40;
  approved_by = none;
  idempotency_key = 70;
  method = cash;
  outlet_id = 2;
  payment_id = 6;
  reason = 0;
  register_session_id = 4;
  sale_id = 7;
  tenant_id = 1;
}

unpaid_shop-IsKeyed : IsKeyed unpaid_shop
unpaid_shop-IsKeyed = record { unique = λ tenant id. omega arith; fresh = λ tenant id h. refl }

paid_shop-IsKeyed : IsKeyed paid_shop
paid_shop-IsKeyed = record {
  unique = λ tenant id. ground arith;
  fresh = λ tenant id h. ground arith;
}

paid_shop-IsRefundedWithin : IsRefundedWithin paid_shop
unfolding refunds_of_sale
paid_shop-IsRefundedWithin tenant id s e = ground arith

record_full_payment-Outcome_example :
    ((c : CheckoutRecord) × ((record_full_payment cashier sample_payment unpaid_shop).0
        ≡ ok (FullPaymentOutcome.recorded c))
      × Recorded sample_payment c unpaid_shop
          (record_full_payment cashier sample_payment unpaid_shop).1
      × IsKeyed (record_full_payment cashier sample_payment unpaid_shop).1)
    ⊎ ((record_full_payment cashier sample_payment unpaid_shop).1 ≡ unpaid_shop)
record_full_payment-Outcome_example =
    record_full_payment-Outcome cashier sample_payment unpaid_shop unpaid_shop-IsKeyed

unpaid_shop-Allowed : Allowed sample_payment unpaid_shop
unpaid_shop-Allowed = (refl, refl, sample_order, refl, refl)

sample_payment-IsStorable : IsStorable sample_payment
unfolding ◌+ℤ◌
sample_payment-IsStorable = record {
  subtotal = ground arith;
  tax = ground arith;
  service_charge = ground arith;
  total = refl;
  positive = ground arith;
  tax_rate = omega arith;
  service_charge_rate = omega arith;
  tendered = ground arith;
}

record_full_payment-ok_example :
    (c : CheckoutRecord) × ((record_full_payment cashier sample_payment unpaid_shop).0
      ≡ ok (FullPaymentOutcome.recorded c))
record_full_payment-ok_example =
    record_full_payment-ok cashier sample_payment unpaid_shop sample_payment-IsStorable
      unpaid_shop-IsKeyed unpaid_shop-Allowed refl refl

record_full_payment_once_example :
    (record_full_payment cashier sample_payment paid_shop).1 ≡ paid_shop
record_full_payment_once_example =
    record_full_payment_once cashier sample_payment sample_bill paid_shop paid_shop-IsKeyed refl
      refl

record_full_payment-Allowed_example :
    Allowed sample_payment unpaid_shop
    ⊎ ((record_full_payment cashier sample_payment unpaid_shop).1 ≡ unpaid_shop)
record_full_payment-Allowed_example = record_full_payment-Allowed cashier sample_payment unpaid_shop

record_refund-IsRefundedWithin_example :
    IsRefundedWithin (record_refund cashier sample_refund paid_shop).1
record_refund-IsRefundedWithin_example =
    record_refund-IsRefundedWithin cashier sample_refund paid_shop paid_shop-IsRefundedWithin

abbrev charged_sample : ChargeBreakdown
charged_sample = record {
  base_minor = pos 1000;
  service_charge_minor = pos 50;
  tax_minor = pos 105;
  total_minor = pos 1155;
}

charged_sample-computed :
    compute_charges
      (pos 1000)
      (record { included = false; service_charge_rate_bp = 500; tax_rate_bp = 1000 })
    ≡ ok charged_sample
unfolding compute_charges divide_rounded ◌+ℤ◌
charged_sample-computed = refl

total_of-compute_charges_example : total_of charged_sample ≡ pos 1155
total_of-compute_charges_example =
    total_of-compute_charges (pos 1000)
      (record { included = false; service_charge_rate_bp = 500; tax_rate_bp = 1000 })
      {b = charged_sample} charged_sample-computed

abbrev shared_source : ReceiptAllocationSource
shared_source = record {
  allocated_minor = pos 100;
  bill_allocation_count = 1;
  payment_allocation_count = 2;
  bill_paid_minor = pos 100;
  bill_total_minor = pos 100;
  payment_amount_minor = pos 250;
}

abbrev sample_claim : NewPaymentClaim
sample_claim = record {
  order_ids = [];
  amount_minor = pos 100;
  idempotency_key = 90;
  method = merchant_qris;
  outlet_id = 2;
  table_session_id = 8;
  tenant_id = 1;
}

unpaid_shop-IsWaitingOnce : IsWaitingOnce unpaid_shop
unpaid_shop-IsWaitingOnce tenant visit = omega arith

claim_payment-IsWaitingOnce_example :
    IsWaitingOnce (claim_payment cashier sample_claim unpaid_shop).1
claim_payment-IsWaitingOnce_example =
    claim_payment-IsWaitingOnce cashier sample_claim unpaid_shop unpaid_shop-IsWaitingOnce

abbrev claimed_shop : Db
claimed_shop = (claim_payment cashier sample_claim unpaid_shop).1

reject_claim-Rejected_example :
    Pairwise
      (Rejected 1 2 10 cashier)
      claimed_shop.payments
      (reject_claim 1 2 10 cashier claimed_shop).1.payments
reject_claim-Rejected_example = reject_claim-Rejected 1 2 10 cashier claimed_shop
