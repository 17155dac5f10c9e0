-- ===== src/Billing.antt =====
-- The ports of the billing, payment and ledger kernel
-- (apps/api/src/kernels/billing-payment-ledger/application/billing.repository.ts), and the bill
-- arithmetic of its domain folder.
pub mod Store
pub mod Writes
pub mod Payments
pub mod Visits
pub mod Refunds
pub mod Claims
pub mod Service
pub mod Amounts
mod Tests
use merchant_operations_plat.Prelude.{
  ℕ, Bool, true, false, not, ◌&&◌, ◌||◌, Option, none, some, List, Uuid, Text, Instant, ltb, leb,
  ◌==◌, if◌then◌else◌,
}
use merchant_operations_plat.Prelude.Int.{ℤ, pos, ◌+ℤ◌, ◌-ℤ◌, ltb_ℤ, leb_ℤ, ◌==ℤ◌}
use merchant_operations_plat.Contracts.Charges.{OutletCharges}
use merchant_operations_plat.Contracts.Billing.{PaymentMethod, PaymentStatus, SaleStatus}
use merchant_operations_plat.Database.{Bill, Payment, Sale, Refund}

-- `ActorCommandOrigin`: who gives the command, and when.
pub record MutationContext : Type 0 where
  pub actor_id : Uuid
  pub now : Instant

pub record CheckoutRecord : Type 0 where
  pub bill : Bill
  pub payment : Payment
  pub sale : Sale

pub record FullPayment : Type 0 where
  pub charges : OutletCharges
  pub currency : Text
  pub idempotency_key : Text
  pub method : PaymentMethod
  pub order_id : Uuid
  pub outlet_id : Uuid
  pub reference : Option Text
  pub register_session_id : Uuid
  pub service_charge_minor : ℤ
  pub subtotal_minor : ℤ
  pub tax_minor : ℤ
  pub tenant_id : Uuid
  pub tendered_minor : Option ℤ
  pub total_minor : ℤ

pub record SessionBillLine : Type 0 where
  pub order_id : Uuid
  pub service_charge_minor : ℤ
  pub subtotal_minor : ℤ
  pub tax_minor : ℤ
  pub total_minor : ℤ

pub record SessionPayment : Type 0 where
  pub charges : OutletCharges
  pub currency : Text
  pub idempotency_key : Text
  pub method : PaymentMethod
  pub outlet_id : Uuid
  pub reference : Option Text
  pub register_session_id : Uuid
  pub tenant_id : Uuid
  pub tendered_minor : Option ℤ
  pub bills : List SessionBillLine
  pub table_session_id : Uuid
  pub total_minor : ℤ
  pub claim_id : Option Uuid

pub record PaymentClaimRecord : Type 0 where
  pub amount_minor : ℤ
  pub claimed_at : Instant
  pub id : Uuid
  pub method : PaymentMethod
  pub status : PaymentStatus
  pub table_session_id : Option Uuid

pub record NewPaymentClaim : Type 0 where
  pub order_ids : List Uuid
  pub amount_minor : ℤ
  pub idempotency_key : Text
  pub method : PaymentMethod
  pub outlet_id : Uuid
  pub table_session_id : Uuid
  pub tenant_id : Uuid

pub record SessionCheckout : Type 0 where
  pub bill : Bill
  pub sale : Sale

pub record SessionCheckoutRecord : Type 0 where
  pub checkouts : List SessionCheckout
  pub payment : Payment

pub data FullPaymentOutcome : Type 0 where
  recorded : CheckoutRecord → FullPaymentOutcome
  bill_already_paid order_canceled shift_not_open : FullPaymentOutcome

pub data SessionPaymentOutcome : Type 0 where
  recorded : SessionCheckoutRecord → SessionPaymentOutcome
  bill_already_paid claim_changed order_canceled shift_not_open : SessionPaymentOutcome

pub record SaleRefundsRecord : Type 0 where
  pub refunds : List Refund
  pub sale : Sale

pub record NewRefund : Type 0 where
  pub amount_minor : ℤ
  pub approved_by : Option Uuid
  pub idempotency_key : Text
  pub method : PaymentMethod
  pub outlet_id : Uuid
  pub payment_id : Uuid
  pub reason : Text
  pub register_session_id : Uuid
  pub sale_id : Uuid
  pub tenant_id : Uuid

pub record ReplayedRefund : Type 0 where
  pub order_id : Uuid
  pub result : SaleRefundsRecord

pub data RefundOutcome : Type 0 where
  recorded : SaleRefundsRecord → RefundOutcome
  exceeds_refundable : ℤ → RefundOutcome
  shift_not_open : RefundOutcome

pub record PaidOrderState : Type 0 where
  pub sale_number : ℕ
  pub sale_status : SaleStatus
  pub total_minor : ℤ

-- `BillParts`, with the defaults of `billTotal` filled in by the caller.
pub record BillParts : Type 0 where
  pub discount_minor : Option ℤ
  pub rounding_minor : Option ℤ
  pub service_charge_minor : Option ℤ
  pub subtotal_minor : ℤ
  pub tax_minor : Option ℤ

abbrev or_zero : Option ℤ → ℤ
or_zero none = pos 0
or_zero (some a) = a

-- domain/bill-total.ts
unfoldable pub bill_total : BillParts → ℤ
bill_total parts =
    parts.subtotal_minor
    -ℤ or_zero parts.discount_minor
    +ℤ or_zero parts.tax_minor
    +ℤ or_zero parts.service_charge_minor
    +ℤ or_zero parts.rounding_minor

unfoldable pub cash_change : ℤ → ℤ → Option ℤ
cash_change tendered amount = if leb_ℤ amount tendered then some (tendered -ℤ amount) else none

-- domain/receipt-allocation.ts. The counts are row counts, so they are safe integers.
pub record ReceiptAllocationSource : Type 0 where
  pub allocated_minor : ℤ
  pub bill_allocation_count : ℕ
  pub payment_allocation_count : ℕ
  pub bill_paid_minor : ℤ
  pub bill_total_minor : ℤ
  pub payment_amount_minor : ℤ

pub record ReceiptAllocation : Type 0 where
  pub amount_minor : ℤ
  pub shared : Bool

unfoldable pub receipt_allocation : ReceiptAllocationSource → Option ReceiptAllocation
receipt_allocation s =
    if not (s.bill_allocation_count == 1)
      || (ltb s.payment_allocation_count 1
          || (leb_ℤ s.allocated_minor (pos 0)
              || (leb_ℤ s.payment_amount_minor (pos 0)
                  || (not (s.bill_paid_minor ==ℤ s.bill_total_minor)
                      || (not (s.allocated_minor ==ℤ s.bill_paid_minor)
                          || (ltb_ℤ s.payment_amount_minor s.allocated_minor
                              || (s.payment_allocation_count == 1
                                  && not (s.allocated_minor ==ℤ s.payment_amount_minor))))))))
    then none
    else some
        (record { amount_minor = s.allocated_minor; shared = ltb 1 s.payment_allocation_count })
