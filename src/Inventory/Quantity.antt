-- ===== src/Inventory/Quantity.antt =====
-- apps/api/src/modules/inventory/domain/quantity.ts with the schemas it calls
-- (packages/contracts/src/inventory.ts). A quantity is a decimal text; its atoms are a whole
-- number of the smallest part of its unit, a `bigint`.
pub mod Texts
mod RoundTrip
mod Factors
mod Exact
mod Tests
use merchant_operations_plat.Prelude.{
  ℕ, ◌+◌, ◌*◌, ◌/◌, ◌%◌, ◌^◌, Bool, true, false, ◌&&◌, ◌||◌, not, List, [], ◌∷◌, ◌++◌, Option, none,
  some, Result, ok, err, or_throw, throw_if, ◌>>=◌, ◌>>◌, leb, ltb, ◌==◌, length, if◌then◌else◌,
  any,
}
use merchant_operations_plat.Prelude.Int.{
  ℤ, pos, negsuc, absolute, neg, is_negative, quot, rem, ◌*ℤ◌,
}
use merchant_operations_plat.Digits.{
  Chars, to_text, to_number, pad_start, pad_end, is_empty, trim_zeros, span_digits,
}
use Texts.{field, fields, is_decimal, after_mark}

-- A value of type `unknown`: a text, a number that is whole and not negative, or anything else.
pub data Unknown : Type 0 where
  text : Chars → Unknown
  number : ℕ → Unknown
  other : Unknown

pub data InventoryQuantityProblem : Type 0 where
  inventory_quantity_invalid : InventoryQuantityProblem
  inventory_unit_precision_invalid : InventoryQuantityProblem
  inventory_quantity_precision_exceeded : InventoryQuantityProblem
  inventory_conversion_factor_invalid : InventoryQuantityProblem
  inventory_conversion_inexact : InventoryQuantityProblem
  inventory_quantity_out_of_range : InventoryQuantityProblem

abbrev pub inventory_quantity_scale : ℕ
inventory_quantity_scale = 6

abbrev pub inventory_quantity_integer_digits : ℕ
inventory_quantity_integer_digits = 24

abbrev pub inventory_factor_scale : ℕ
inventory_factor_scale = 12

abbrev pub inventory_factor_integer_digits : ℕ
inventory_factor_integer_digits = 18

-- `inventoryUnitPrecisionSchema.safeParse`
unfoldable pub unit_precision_of : Unknown → Option ℕ
unit_precision_of (number n) = if leb n inventory_quantity_scale then some n else none
unit_precision_of (text _) = none
unit_precision_of other = none

abbrev pub is_signed : Chars → Bool
is_signed [] = false
is_signed (c ∷ cs) = c == b'-'

-- `quantity.startsWith("-") ? quantity.slice(1) : quantity`
abbrev pub unsigned : Chars → Chars
unsigned [] = []
unsigned (c ∷ cs) = if c == b'-' then cs else c ∷ cs

-- `inventoryQuantitySchema`
unfoldable pub is_quantity : Chars → Bool
is_quantity cs =
    leb (length cs) 32
    && is_decimal inventory_quantity_integer_digits inventory_quantity_scale (unsigned cs)

unfoldable pub quantity_of : Unknown → Option Chars
quantity_of (text cs) = if is_quantity cs then some cs else none
quantity_of (number _) = none
quantity_of other = none

-- `inventoryConversionFactorSchema`
unfoldable pub is_factor : Chars → Bool
is_factor cs =
    leb (length cs) 31
    && (is_decimal inventory_factor_integer_digits inventory_factor_scale cs
        && any (λ c. leb b'1' c && leb c b'9') cs)

unfoldable pub factor_of : Unknown → Option Chars
factor_of (text cs) = if is_factor cs then some cs else none
factor_of (number _) = none
factor_of other = none

-- `BigInt(cs || "0")` is 0 on the empty text, as `to_number` is.
unfoldable pub atoms_of : ℕ → Chars → Chars → ℕ
atoms_of precision whole fraction =
    to_number whole * 10 ^ precision + to_number (pad_end precision fraction)

unfoldable pub atoms_of_text : ℕ → Chars → Result InventoryQuantityProblem ℤ
atoms_of_text precision quantity =
    let parts = fields b'.' (unsigned quantity) in
    let fraction = trim_zeros (field 1 parts) in
    let atoms = atoms_of precision (field 0 parts) fraction in
    if ltb precision (length fraction)
    then err inventory_quantity_precision_exceeded
    else ok (if is_signed quantity then neg atoms else pos atoms)

unfoldable pub parse_inventory_quantity : Unknown → Unknown → Result InventoryQuantityProblem ℤ
parse_inventory_quantity input unit_precision = do
  precision ← or_throw (unit_precision_of unit_precision) inventory_unit_precision_invalid
  quantity ← or_throw (quantity_of input) inventory_quantity_invalid
  atoms_of_text precision quantity

unfoldable pub text_of_magnitude : ℕ → ℕ → Chars
text_of_magnitude precision magnitude =
    let whole = to_text (magnitude / 10 ^ precision) in
    let fraction = trim_zeros (pad_start precision (to_text (magnitude % 10 ^ precision))) in
    whole ++ after_mark fraction

unfoldable pub text_of_atoms : ℕ → ℤ → Result InventoryQuantityProblem Chars
text_of_atoms precision atoms =
    if leb (10 ^ (inventory_quantity_integer_digits + precision)) (absolute atoms)
    then err inventory_quantity_out_of_range
    else ok (
        (if is_negative atoms then b'-' ∷ [] else [])
        ++ text_of_magnitude precision (absolute atoms))

unfoldable pub format_inventory_quantity : ℤ → Unknown → Result InventoryQuantityProblem Chars
format_inventory_quantity atoms unit_precision = do
  precision ← or_throw (unit_precision_of unit_precision) inventory_unit_precision_invalid
  text_of_atoms precision atoms

pub record Conversion : Type 0 where
  pub quantity : Unknown
  pub from_precision : Unknown
  pub to_precision : Unknown
  pub factor : Unknown

-- `BigInt(whole) * pow10(fraction.length) + BigInt(fraction || "0")`
unfoldable pub coefficient : Chars → ℕ
coefficient factor =
    let parts = fields b'.' factor in
    to_number (field 0 parts) * 10 ^ length (field 1 parts) + to_number (field 1 parts)

-- The digits of a factor after its full stop.
unfoldable pub factor_digits : Chars → ℕ
factor_digits factor = length (field 1 (fields b'.' factor))

unfoldable pub convert_inventory_quantity : Conversion → Result InventoryQuantityProblem Chars
convert_inventory_quantity input = do
  source_precision ←
      or_throw (unit_precision_of input.from_precision) inventory_unit_precision_invalid
  source ← parse_inventory_quantity input.quantity (number source_precision)
  target ← or_throw (unit_precision_of input.to_precision) inventory_unit_precision_invalid
  factor ← or_throw (factor_of input.factor) inventory_conversion_factor_invalid
  let numerator = source *ℤ pos (coefficient factor) *ℤ pos (10 ^ target)
  let denominator = 10 ^ source_precision * 10 ^ factor_digits factor
  throw_if (not (rem numerator denominator == 0)) inventory_conversion_inexact
  format_inventory_quantity (quot numerator denominator) (number target)
