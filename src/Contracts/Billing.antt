-- ===== src/Contracts/Billing.antt =====
-- packages/contracts/src/billing.ts: the states of bills, payments and sales.
use merchant_operations_plat.Prelude.{ℕ, Bool, true, false, ◌==◌}

pub data BillStatus : Type 0 where
  unpaid partially_paid paid void : BillStatus

pub data PaymentMethod : Type 0 where
  cash merchant_qris transfer edc other : PaymentMethod

pub data PaymentStatus : Type 0 where
  unpaid verifying paid refund_pending refunded failed expired : PaymentStatus

pub data SaleStatus : Type 0 where
  opened completed partially_refunded refunded voided : SaleStatus

abbrev pub is_bill_unpaid : BillStatus → Bool
is_bill_unpaid BillStatus.unpaid = true
is_bill_unpaid _ = false

abbrev pub is_bill_paid : BillStatus → Bool
is_bill_paid BillStatus.paid = true
is_bill_paid _ = false

abbrev pub is_verifying : PaymentStatus → Bool
is_verifying verifying = true
is_verifying _ = false

abbrev pub is_payment_paid : PaymentStatus → Bool
is_payment_paid PaymentStatus.paid = true
is_payment_paid _ = false

abbrev pub is_cash : PaymentMethod → Bool
is_cash cash = true
is_cash _ = false

-- `a === b` on methods, through their places in the enumeration.
abbrev method_code : PaymentMethod → ℕ
method_code cash = 0
method_code merchant_qris = 1
method_code transfer = 2
method_code edc = 3
method_code other = 4

abbrev pub same_method : PaymentMethod → PaymentMethod → Bool
same_method a b = method_code a == method_code b
