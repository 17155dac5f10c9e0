-- ===== src/Billing/Amounts.antt =====
-- What the amounts of a bill add up to
-- (apps/api/src/kernels/billing-payment-ledger/domain).
use merchant_operations_plat.Prelude.{◌≡◌, false, ok, none, some}
use merchant_operations_plat.Prelude.Int.{ℤ, pos, ◌+ℤ◌, ◌≤ℤ◌, ◌<ℤ◌, int_laws}
use merchant_operations_plat.Contracts.Charges.{OutletCharges, ChargeBreakdown, compute_charges}
use merchant_operations_plat.Contracts.Charges.Bounds.{compute_charges-AddsUp}
use merchant_operations_plat.Billing.{
  bill_total, cash_change, ReceiptAllocationSource, ReceiptAllocation,
}
use merchant_operations_plat.Billing.Service.{total_of}

-- The total that a bill is settled with, from the parts of its charges, is the charges' own total.
pub total_of-compute_charges :
    (subtotal : ℤ) (c : OutletCharges) {b : ChargeBreakdown}
    → compute_charges subtotal c ≡ ok b
    → total_of b ≡ b.total_minor
unfolding bill_total
total_of-compute_charges subtotal c {b} e = grind (int_laws, compute_charges-AddsUp subtotal c e)

-- Cash is enough exactly where it is not less than the amount, and what comes back is the rest.
pub cash_change_lem :
    (tendered amount : ℤ)
    → (cash_change tendered amount ≡ none → tendered <ℤ amount)
      × ((change : ℤ)
          → cash_change tendered amount ≡ some change
          → (pos 0 ≤ℤ change) × (amount +ℤ change ≡ tendered))
unfolding cash_change
cash_change_lem tendered amount = (λ e. grind int_laws, λ c e. grind int_laws)

-- An allocation is printed only where it is the bill's only one, pays the bill exactly, is positive
-- and within its payment; a payment of one allocation is that allocation.
abbrev pub IsPrintable : ReceiptAllocationSource → ReceiptAllocation → Type 0
IsPrintable s a =
    (s.bill_allocation_count ≡ 1)
    × (a.amount_minor ≡ s.bill_total_minor)
    × (s.bill_paid_minor ≡ s.bill_total_minor)
    × (pos 0 <ℤ a.amount_minor)
    × (a.amount_minor ≤ℤ s.payment_amount_minor)
    × (a.shared ≡ false → a.amount_minor ≡ s.payment_amount_minor)
