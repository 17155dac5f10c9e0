-- ===== src/Contracts/Charges/Tests.antt =====
-- The charge theorems at a rate of 5% service and 10% tax.
use merchant_operations_plat.Prelude.{◌≡◌, refl, arith, true, false, ok}
use merchant_operations_plat.Prelude.Int.{pos, ◌+ℤ◌, ◌-ℤ◌, ◌≤ℤ◌}
use merchant_operations_plat.Contracts.Charges.{
  OutletCharges, ChargeBreakdown, divide_rounded, compute_charges,
}
use merchant_operations_plat.Contracts.Charges.Bounds.{AddsUp, compute_charges-AddsUp, added_back}

abbrev rates : OutletCharges
rates = record { included = true; service_charge_rate_bp = 500; tax_rate_bp = 1000 }

abbrev taken_out : ChargeBreakdown
taken_out = record {
  base_minor = pos 866;
  service_charge_minor = pos 43;
  tax_minor = pos 91;
  total_minor = pos 1000;
}

abbrev added_again : ChargeBreakdown
added_again = record {
  base_minor = pos 866;
  service_charge_minor = pos 43;
  tax_minor = pos 91;
  total_minor = pos 1000;
}

taken_out-computed : compute_charges (pos 1000) rates ≡ ok taken_out
unfolding compute_charges divide_rounded ◌+ℤ◌ ◌-ℤ◌
taken_out-computed = refl

added_again-computed :
    compute_charges (pos 866) (record rates { included = false }) ≡ ok added_again
unfolding compute_charges divide_rounded ◌+ℤ◌
added_again-computed = refl

compute_charges-AddsUp_example : AddsUp taken_out
compute_charges-AddsUp_example =
    compute_charges-AddsUp (pos 1000) rates {b = taken_out} taken_out-computed

added_back_example :
    (pos 1000 ≤ℤ added_again.total_minor +ℤ pos 2) × (added_again.total_minor ≤ℤ pos 1002)
added_back_example =
    added_back 1000 rates {b = taken_out} {d = added_again}
      (record { service_capped = omega arith; tax_capped = omega arith }) refl taken_out-computed
      added_again-computed
