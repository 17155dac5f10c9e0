-- ===== src/Inventory/Quantity/Exact.antt =====
-- apps/api/src/modules/inventory/domain/quantity.ts: a conversion is exact or refused.
use native.Mathlib.Nat.{div-add-mod}
use merchant_operations_plat.Prelude.{
  ℕ, zero, suc, ◌*◌, ◌/◌, ◌%◌, ◌^◌, ◌≡◌, arith, not, ◌==◌, ok, or_throw, some, ◌++◌, length, ap,
  ◌∙◌, subst, true, ok-then, ok-or_throw, ok-throw_if,
}
use merchant_operations_plat.Prelude.Int.{ℤ, pos, negsuc, neg, quot, rem, ◌*ℤ◌}
use merchant_operations_plat.Digits.{Chars, to_number}
use merchant_operations_plat.Digits.Laws.{AreDigits}
use merchant_operations_plat.Inventory.Quantity.Texts.{after_mark, is_decimal}
use merchant_operations_plat.Inventory.Quantity.Factors.{coefficient_lem, is_decimal_lem}
use merchant_operations_plat.Inventory.Quantity.{
  Unknown, other, is_factor, inventory_factor_integer_digits, inventory_factor_scale, text, number,
  inventory_unit_precision_invalid, inventory_conversion_inexact,
  inventory_conversion_factor_invalid, unit_precision_of, factor_of, parse_inventory_quantity,
  format_inventory_quantity, Conversion, coefficient, factor_digits, convert_inventory_quantity,
}
use merchant_operations_plat.Inventory.Quantity.RoundTrip.{
  parse_inventory_quantity-format_inventory_quantity,
}

-- Where nothing is left over, division is undone by multiplication.
div_lem : (n d : ℕ) → n % d ≡ 0 → n / d * d ≡ n
div_lem n d h = grind (arith, div-add-mod n d)

neg-times : (k d n : ℕ) → k * d ≡ suc n → neg k *ℤ pos d ≡ negsuc n
unfolding ◌*ℤ◌
neg-times zero d n h = absurd (grind arith)
neg-times (suc k) d n h = grind arith

quot-times : (n : ℤ) (d : ℕ) → rem n d ≡ 0 → quot n d *ℤ pos d ≡ n
unfolding quot rem ◌*ℤ◌
quot-times (pos n) d h = let e = div_lem n d h in grind (arith, e)
quot-times (negsuc n) d h = neg-times (suc n / d) d n (div_lem (suc n) d h)

-- The factor is its digits before the mark and those after it. The quantity, read at its precision,
-- times the number that all these digits make is the answer, read at the other precision, both
-- counted in the smallest parts that the two precisions and the factor have: its last digit stands
-- for one part in 10 to the number of digits after the mark.
pub record IsConverted (input : Conversion) (converted : Chars) : Type 0 where
  pub from_scale : ℕ
  pub to_scale : ℕ
  pub whole : Chars
  pub fraction : Chars
  pub source : ℤ
  pub target : ℤ
  pub from_is : unit_precision_of input.from_precision ≡ some from_scale
  pub to_is : unit_precision_of input.to_precision ≡ some to_scale
  pub factor_is : factor_of input.factor ≡ some (whole ++ after_mark fraction)
  pub whole_digits : AreDigits whole
  pub fraction_digits : AreDigits fraction
  pub source_is : parse_inventory_quantity input.quantity (number from_scale) ≡ ok source
  pub target_is : parse_inventory_quantity (text converted) (number to_scale) ≡ ok target
  pub exact :
      target *ℤ pos (10 ^ from_scale * 10 ^ length fraction)
      ≡ source *ℤ pos (to_number (whole ++ fraction)) *ℤ pos (10 ^ to_scale)

factor_lem :
    (given : Unknown) (f : Chars)
    → factor_of given ≡ some f
    → (whole : Chars) × (fraction : Chars) × AreDigits whole
      × AreDigits fraction
      × (f ≡ whole ++ after_mark fraction)
unfolding factor_of is_factor
factor_lem (text cs) f h =
    let same : cs ≡ f = ground arith in
    is_decimal_lem inventory_factor_integer_digits inventory_factor_scale f (
      subst (λ c. is_decimal inventory_factor_integer_digits inventory_factor_scale c ≡ true) same
        (ground arith))
factor_lem (number n) f h = absurd (ground arith)
factor_lem other f h = absurd (ground arith)

-- A quantity that convertInventoryQuantity answers stands for exactly the quantity it was given
-- times the factor: nothing is rounded.
pub convert_inventory_quantity-IsConverted :
    (input : Conversion) (converted : Chars)
    → convert_inventory_quantity input ≡ ok converted
    → IsConverted input converted
unfolding convert_inventory_quantity
convert_inventory_quantity-IsConverted input converted h =
    let (p, from, h1) =
      ok-then (or_throw (unit_precision_of input.from_precision) inventory_unit_precision_invalid) _
        converted h in
    let (s, source, h2) =
      ok-then (parse_inventory_quantity input.quantity (number p)) _ converted h1 in
    let (q, to, h3) =
      ok-then (or_throw (unit_precision_of input.to_precision) inventory_unit_precision_invalid) _
        converted h2 in
    let (f, factor, h4) =
      ok-then (or_throw (factor_of input.factor) inventory_conversion_factor_invalid) _ converted
        h3 in
    let n = s *ℤ pos (coefficient f) *ℤ pos (10 ^ q) in
    let d = 10 ^ p * 10 ^ factor_digits f in
    let factor_known = ok-or_throw _ _ f factor in
    let (whole, fraction, hw, hf, split) = factor_lem input.factor f factor_known in
    let (value, digits) = coefficient_lem whole fraction hw hf in
    let counted : coefficient f ≡ to_number (whole ++ fraction) = ap coefficient split ∙ value in
    let places : factor_digits f ≡ length fraction = ap factor_digits split ∙ digits in
    let (even, formatted) =
      ok-throw_if (not (rem n d == 0)) inventory_conversion_inexact
        (format_inventory_quantity (quot n d) (number q)) converted h4 in
    record {
      from_scale = p;
      to_scale = q;
      whole = whole;
      fraction = fraction;
      source = s;
      target = quot n d;
      from_is = ok-or_throw _ _ p from;
      to_is = ok-or_throw _ _ q to;
      factor_is = factor_known ∙ ap some split;
      whole_digits = hw;
      fraction_digits = hf;
      source_is = source;
      target_is =
          parse_inventory_quantity-format_inventory_quantity (quot n d) (number q) converted
            formatted;
      exact =
          subst (λ c. quot n d *ℤ pos (10 ^ p * 10 ^ length fraction) ≡ s *ℤ pos c *ℤ pos (10 ^ q))
            counted
            (subst
              (λ k. quot n d *ℤ pos (10 ^ p * 10 ^ k) ≡ s *ℤ pos (coefficient f) *ℤ pos (10 ^ q))
              places (quot-times n d (ground arith)));
    }
