-- ===== src/Contracts/Charges.antt =====
-- packages/contracts/src/charges.ts: service charge and tax on a sum of menu prices. Amounts are
-- whole minor units; rates are basis points, which the schema keeps between 0 and 5000.
pub mod Bounds
mod Tests
use merchant_operations_plat.Prelude.{
  ℕ, ◌+◌, ◌*◌, ◌/◌, ◌≤◌, Bool, Result, ok, err, if◌then◌else◌, not,
}
use merchant_operations_plat.Prelude.Int.{ℤ, pos, negsuc, ◌+ℤ◌, ◌-ℤ◌}

pub record OutletCharges : Type 0 where
  pub included : Bool
  pub service_charge_rate_bp : ℕ
  pub tax_rate_bp : ℕ

-- `outletChargesSchema`: what the contract admits.
pub record IsRated (c : OutletCharges) : Type 0 where
  pub service_capped : c.service_charge_rate_bp ≤ 5000
  pub tax_capped : c.tax_rate_bp ≤ 5000

pub record ChargeBreakdown : Type 0 where
  pub base_minor : ℤ
  pub service_charge_minor : ℤ
  pub tax_minor : ℤ
  pub total_minor : ℤ

-- The `RangeError` that a negative subtotal throws.
pub data RangeError : Type 0 where
  negative_subtotal : RangeError

abbrev pub bp : ℕ
bp = 10000

-- Both arguments are at least 0 at every call, where `/` on `bigint` is that on ℕ.
unfoldable pub divide_rounded : ℕ → ℕ → ℕ
divide_rounded numerator denominator = (numerator * 2 + denominator) / (denominator * 2)

-- The two branches on `charges.included`, for a subtotal that is not negative.
unfoldable pub split_charges : ℕ → OutletCharges → ChargeBreakdown
split_charges subtotal charges =
    if not charges.included
    then (let service_charge = divide_rounded (subtotal * charges.service_charge_rate_bp) bp in
        let tax = divide_rounded ((subtotal + service_charge) * charges.tax_rate_bp) bp in
        record {
          base_minor = pos subtotal;
          service_charge_minor = pos service_charge;
          tax_minor = pos tax;
          total_minor = pos subtotal +ℤ pos service_charge +ℤ pos tax;
        })
    else (let before_tax = divide_rounded (subtotal * bp) (bp + charges.tax_rate_bp) in
        let base = divide_rounded (before_tax * bp) (bp + charges.service_charge_rate_bp) in
        record {
          base_minor = pos base;
          service_charge_minor = pos before_tax -ℤ pos base;
          tax_minor = pos subtotal -ℤ pos before_tax;
          total_minor = pos subtotal;
        })

unfoldable pub compute_charges : ℤ → OutletCharges → Result RangeError ChargeBreakdown
unfolding split_charges
compute_charges (pos subtotal) charges = ok (split_charges subtotal charges)
compute_charges (negsuc _) charges = err negative_subtotal
