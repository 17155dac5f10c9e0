-- ===== src/Contracts/Charges/Bounds.antt =====
-- What holds of every charge breakdown (packages/contracts/src/charges.ts).
use native.Mathlib.Nat.{mul-le-mul_right}
use merchant_operations_plat.Prelude.{
  ℕ, ◌+◌, ◌*◌, ◌≤◌, ◌<◌, ◌≡◌, inl, inr, true, false, ok, arith, Bool-cases,
}
use merchant_operations_plat.Prelude.Int.{ℤ, pos, negsuc, ◌+ℤ◌, ◌≤ℤ◌, int_laws}
use merchant_operations_plat.Contracts.Charges.{
  OutletCharges, IsRated, ChargeBreakdown, bp, divide_rounded, split_charges, compute_charges,
}

-- The quotient is the nearest whole number, halves rounded up: 2n - d < 2dq ≤ 2n + d.
pub divide_rounded_nearest :
    (n d : ℕ)
    → 0 < d
    → (2 * (divide_rounded n d * d) ≤ 2 * n + d) × (2 * n < 2 * (divide_rounded n d * d) + d)
unfolding divide_rounded
divide_rounded_nearest n d h = grind arith

mul_gap : (a b d : ℕ) → a < b → a * d + d ≤ b * d
mul_gap a b d h = grind arith

divide_rounded-le : (s t : ℕ) → divide_rounded (s * bp) (bp + t) ≤ s
divide_rounded-le s t = grind (
  arith,
  divide_rounded_nearest (s * bp) (bp + t) (omega arith),
  mul_gap s (divide_rounded (s * bp) (bp + t)) (bp + t),
)

-- What the included split takes out: first the tax, then the service.
included_parts :
    (s : ℕ) (c : OutletCharges)
    → let b = divide_rounded (s * bp) (bp + c.tax_rate_bp) in
      (divide_rounded (b * bp) (bp + c.service_charge_rate_bp) ≤ b) × (b ≤ s)
included_parts s c = (divide_rounded-le _ _, divide_rounded-le s c.tax_rate_bp)

abbrev pub AddsUp : ChargeBreakdown → Type 0
AddsUp b =
    (b.total_minor ≡ b.base_minor +ℤ b.service_charge_minor +ℤ b.tax_minor)
    × (pos 0 ≤ℤ b.base_minor)
    × (pos 0 ≤ℤ b.service_charge_minor)
    × (pos 0 ≤ℤ b.tax_minor)

split_charges-AddsUp : (s : ℕ) (c : OutletCharges) → AddsUp (split_charges s c)
unfolding split_charges
split_charges-AddsUp s c = elim (Bool-cases c.included) [
  | inl e ↦ rw e (grind (int_laws, included_parts s c))
  | inr e ↦ rw e (grind int_laws)
]

-- Whatever the rates, the parts of a breakdown are not negative and add up to its total exactly.
pub compute_charges-AddsUp :
    (subtotal : ℤ) (c : OutletCharges) {b : ChargeBreakdown}
    → compute_charges subtotal c ≡ ok b
    → AddsUp b
unfolding compute_charges
compute_charges-AddsUp (pos s) c e = grind (arith, split_charges-AddsUp s c)
compute_charges-AddsUp (negsuc s) c e = cc

-- Prices that include the charges are what the customer pays; otherwise the base is the menu price.
pub compute_charges_payable :
    (subtotal : ℤ) (c : OutletCharges) {b : ChargeBreakdown}
    → compute_charges subtotal c ≡ ok b
    → (c.included ≡ true → b.total_minor ≡ subtotal)
      × (c.included ≡ false → (b.base_minor ≡ subtotal) × (subtotal ≤ℤ b.total_minor))
unfolding compute_charges split_charges
compute_charges_payable (pos s) c e = (λ i. grind (int_laws, i), λ i. grind (int_laws, i))
compute_charges_payable (negsuc s) c e = cc

-- The charge that an included price holds is within one unit of the charge added to the rest.
divide_rounded_inverse :
    (n rate : ℕ)
    → rate ≤ 5000
    → let rest = divide_rounded (n * bp) (bp + rate) in
      (n ≤ rest + divide_rounded (rest * rate) bp + 1)
      × (rest + divide_rounded (rest * rate) bp ≤ n + 1)
divide_rounded_inverse n rate h =
    let rest = divide_rounded (n * bp) (bp + rate) in
    grind (
      arith,
      divide_rounded_nearest (n * bp) (bp + rate) (omega arith),
      divide_rounded_nearest (rest * rate) bp (omega arith),
    )

mul_near : (a b t : ℕ) → a ≤ b + 1 → a * t ≤ b * t + t
mul_near a b t h = omega (arith, mul-le-mul_right t h)

-- Tax on an amount within one unit of the amount before tax comes back within two units.
taxed_near :
    (n tax again : ℕ)
    → tax ≤ 5000
    → let before = divide_rounded (n * bp) (bp + tax) in
      before ≤ again + 1
      → again ≤ before + 1
      → let total = again + divide_rounded (again * tax) bp in (n ≤ total + 2) × (total ≤ n + 2)
taxed_near n tax again h lo hi =
    let before = divide_rounded (n * bp) (bp + tax) in
    let first = divide_rounded_nearest (n * bp) (bp + tax) (omega arith) in
    let second = divide_rounded_nearest (again * tax) bp (omega arith) in
    let low = mul_near before again tax lo in let high = mul_near again before tax hi in omega arith

-- An included price, split and then charged again on its base, comes back within two units.
pub added_back :
    (n : ℕ) (c : OutletCharges) {b d : ChargeBreakdown}
    → IsRated c
    → c.included ≡ true
    → compute_charges (pos n) c ≡ ok b
    → compute_charges b.base_minor (record c { included = false }) ≡ ok d
    → (pos n ≤ℤ d.total_minor +ℤ pos 2) × (d.total_minor ≤ℤ pos (n + 2))
unfolding compute_charges split_charges
added_back n c v i e f =
    let before = divide_rounded (n * bp) (bp + c.tax_rate_bp) in
    let base = divide_rounded (before * bp) (bp + c.service_charge_rate_bp) in
    let again = base + divide_rounded (base * c.service_charge_rate_bp) bp in
    let inverse = divide_rounded_inverse before c.service_charge_rate_bp v.service_capped in
    let near = taxed_near n c.tax_rate_bp again v.tax_capped inverse.0 inverse.1 in grind int_laws
