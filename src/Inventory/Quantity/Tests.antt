-- ===== src/Inventory/Quantity/Tests.antt =====
-- apps/api/src/modules/inventory/domain/quantity.ts on quantities written out.
use merchant_operations_plat.Prelude.{◌≡◌, refl, [], ◌∷◌, ok}
use merchant_operations_plat.Prelude.Int.{negsuc, quot, rem, ◌*ℤ◌}
use merchant_operations_plat.Digits.{
  Chars, to_text, trim_zeros, pad_start, pad_end, digits_of, span_digits, number_from, to_number,
}
use merchant_operations_plat.Inventory.Quantity.Texts.{
  is_decimal, is_whole, is_fraction, fields, after_mark,
}
use merchant_operations_plat.Inventory.Quantity.{
  text, number, parse_inventory_quantity, format_inventory_quantity, Conversion,
  convert_inventory_quantity, unit_precision_of, text_of_atoms, text_of_magnitude, quantity_of,
  is_quantity, atoms_of_text, factor_of, is_factor, atoms_of, coefficient, factor_digits,
}
use merchant_operations_plat.Inventory.Quantity.RoundTrip.{
  parse_inventory_quantity-format_inventory_quantity,
}
use merchant_operations_plat.Inventory.Quantity.Exact.{
  IsConverted, convert_inventory_quantity-IsConverted,
}

-- "-1.5", "0.25"
abbrev pub minus_one_and_half : Chars
minus_one_and_half = b'-' ∷ b'1' ∷ b'.' ∷ b'5' ∷ []

abbrev pub quarter : Chars
quarter = b'0' ∷ b'.' ∷ b'2' ∷ b'5' ∷ []

abbrev pub to_thousandths : Conversion
to_thousandths = record {
  quantity = text minus_one_and_half;
  from_precision = number 2;
  to_precision = number 3;
  factor = text quarter;
}

parse_inventory_quantity-format_inventory_quantity_example :
    parse_inventory_quantity (text minus_one_and_half) (number 2) ≡ ok (negsuc 149)
unfolding format_inventory_quantity unit_precision_of text_of_atoms text_of_magnitude to_text
    after_mark trim_zeros pad_start digits_of
parse_inventory_quantity-format_inventory_quantity_example =
    parse_inventory_quantity-format_inventory_quantity (negsuc 149) (number 2) minus_one_and_half
      refl

-- -1.5 times 0.25 is -0.375.
convert_inventory_quantity-IsConverted_example :
    IsConverted to_thousandths (b'-' ∷ b'0' ∷ b'.' ∷ b'3' ∷ b'7' ∷ b'5' ∷ [])
unfolding convert_inventory_quantity unit_precision_of parse_inventory_quantity quantity_of
    is_quantity is_decimal is_whole span_digits is_fraction atoms_of_text trim_zeros fields
    factor_of is_factor rem ◌*ℤ◌ atoms_of digits_of number_from pad_end pad_start to_number to_text
    after_mark coefficient factor_digits format_inventory_quantity text_of_atoms text_of_magnitude
    quot
convert_inventory_quantity-IsConverted_example =
    convert_inventory_quantity-IsConverted to_thousandths
      (b'-' ∷ b'0' ∷ b'.' ∷ b'3' ∷ b'7' ∷ b'5' ∷ []) refl
