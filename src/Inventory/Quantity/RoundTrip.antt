-- ===== src/Inventory/Quantity/RoundTrip.antt =====
-- apps/api/src/modules/inventory/domain/quantity.ts: a formatted quantity is read back.
use native.Mathlib.Nat.{pow-suc, mod-lt, div-lt_iff_lt-mul, one-le-pow, div-add-mod}
use merchant_operations_plat.Prelude.{
  ℕ, zero, suc, ◌+◌, ◌*◌, ◌/◌, ◌%◌, ◌^◌, ◌≤◌, ◌<◌, ◌≡◌, refl, ap, sym, subst, ◌∙◌, arith, true,
  false, [], ◌∷◌, ◌++◌, leb, ltb, ◌==◌, length, if◌then◌else◌, Bool-cases, inl, inr, ok,
}
use merchant_operations_plat.Prelude.Int.{ℤ, pos, negsuc, absolute, neg, is_negative}
use merchant_operations_plat.Digits.{Chars, to_text, trim_zeros}
use merchant_operations_plat.Digits.Laws.{
  AreDigits, to_text-AreDigits, length-to_text-le, length-to_text-pos, length-append,
  to_number-to_text,
}
use merchant_operations_plat.Digits.Fractions.{
  fraction_text, fraction_text-AreDigits, length-fraction_text-le, to_number-fraction_text,
  trim_zeros-fraction_text,
}
use merchant_operations_plat.Inventory.Quantity.Texts.{is_decimal, after_mark, fields, field}
use merchant_operations_plat.Inventory.Quantity.Texts.Laws.{
  to_text-is_whole, after_mark-is_decimal, fields-after_mark,
}
use merchant_operations_plat.Inventory.Quantity.{
  Unknown, text, number, other, unit_precision_of, is_signed, unsigned, is_quantity, quantity_of,
  atoms_of, atoms_of_text, parse_inventory_quantity, text_of_magnitude, text_of_atoms,
  format_inventory_quantity,
}

pub scale_pos : (p : ℕ) → 0 < 10 ^ p
scale_pos p = one-le-pow p 10 (omega arith)

times_ten : (x y : ℕ) → x * y * 10 ≡ x * 10 * y
times_ten x y = grind arith

scale_add : (a p : ℕ) → 10 ^ (a + p) ≡ 10 ^ a * 10 ^ p
scale_add zero p = grind arith
scale_add (suc a) p =
    ap (λ j. 10 ^ j) (let moved : suc a + p ≡ suc (a + p) = omega arith in moved)
    ∙ pow-suc 10 (a + p)
    ∙ rw (scale_add a p) (times_ten (10 ^ a) (10 ^ p))
    ∙ ap (λ x. x * 10 ^ p) (sym (pow-suc 10 a))

digits_unsigned :
    (ds rest : Chars)
    → AreDigits ds
    → 1 ≤ length ds
    → (is_signed (ds ++ rest) ≡ false) × (unsigned (ds ++ rest) ≡ ds ++ rest)
digits_unsigned [] rest h some_digit = absurd (omega arith)
digits_unsigned (d ∷ ds) rest (h, hs) some_digit =
    let no_sign : (d == b'-') ≡ false = ground arith in (no_sign, rw no_sign refl)

length-after_mark-le : (ds : Chars) → length (after_mark ds) ≤ suc (length ds)
unfolding after_mark
length-after_mark-le [] = omega arith
length-after_mark-le (d ∷ ds) = omega arith

module _ (p k : ℕ) (few : p ≤ 6) (fits : k < 10 ^ (24 + p)) where
  whole_lt : k / 10 ^ p < 10 ^ 24
  whole_lt = (div-lt_iff_lt-mul (scale_pos p)).1 (subst (λ m. k < m) (scale_add 24 p) fits)

  part_lt : k % 10 ^ p < 10 ^ p
  part_lt = mod-lt k (scale_pos p)

  text_of_magnitude-is_decimal : is_decimal 24 6 (text_of_magnitude p k) ≡ true
  unfolding text_of_magnitude fraction_text
  text_of_magnitude-is_decimal =
      after_mark-is_decimal 24 6 (to_text (k / 10 ^ p)) (fraction_text p (k % 10 ^ p))
        (to_text-AreDigits (k / 10 ^ p)) (to_text-is_whole 23 (k / 10 ^ p) whole_lt)
        (fraction_text-AreDigits p (k % 10 ^ p))
        (omega (arith, length-fraction_text-le p (k % 10 ^ p) part_lt))

  -- It starts with a digit, so it has no sign.
  text_of_magnitude-unsigned :
      (is_signed (text_of_magnitude p k) ≡ false)
      × (unsigned (text_of_magnitude p k) ≡ text_of_magnitude p k)
  unfolding text_of_magnitude fraction_text
  text_of_magnitude-unsigned =
      digits_unsigned (to_text (k / 10 ^ p)) (after_mark (fraction_text p (k % 10 ^ p)))
        (to_text-AreDigits (k / 10 ^ p)) (length-to_text-pos (k / 10 ^ p))

  length-text_of_magnitude-le : length (text_of_magnitude p k) ≤ 31
  unfolding text_of_magnitude fraction_text
  length-text_of_magnitude-le =
      let whole = length-to_text-le (k / 10 ^ p) 23 whole_lt in
      let part = length-fraction_text-le p (k % 10 ^ p) part_lt in
      omega (
        arith,
        length-append (to_text (k / 10 ^ p)) (after_mark (fraction_text p (k % 10 ^ p))),
        length-after_mark-le (fraction_text p (k % 10 ^ p)),
      )

  -- The two fields give the number back.
  atoms_of-text_of_magnitude :
      let parts = fields b'.' (text_of_magnitude p k) in
      (length (trim_zeros (field 1 parts)) ≤ p)
      × (atoms_of p (field 0 parts) (trim_zeros (field 1 parts)) ≡ k)
  unfolding text_of_magnitude fraction_text atoms_of
  atoms_of-text_of_magnitude =
      let (whole, part) =
        fields-after_mark (to_text (k / 10 ^ p)) (fraction_text p (k % 10 ^ p))
          (to_text-AreDigits (k / 10 ^ p)) (fraction_text-AreDigits p (k % 10 ^ p)) in
      let W = to_text (k / 10 ^ p) in
      let F = fraction_text p (k % 10 ^ p) in
      let short =
        subst (λ t. length t ≤ p) (sym (trim_zeros-fraction_text p (k % 10 ^ p)))
          (length-fraction_text-le p (k % 10 ^ p) part_lt) in
      let value : atoms_of p W F ≡ k = rw (to_number-to_text (k / 10 ^ p)) (
        rw (to_number-fraction_text p (k % 10 ^ p) part_lt)
          (grind (arith, div-add-mod k (10 ^ p)))) in
      (
        subst (λ t. length (trim_zeros t) ≤ p) (sym part) short,
        ap (λ t. atoms_of p t (trim_zeros (field 1 (fields b'.' (text_of_magnitude p k))))) whole
            ∙ ap (λ t. atoms_of p W (trim_zeros t)) part
            ∙ ap (atoms_of p W) (trim_zeros-fraction_text p (k % 10 ^ p))
            ∙ value,
      )

sign_text : ℤ → Chars
sign_text atoms = if is_negative atoms then b'-' ∷ [] else []

parse_lem :
    (p : ℕ) (t : Chars)
    → p ≤ 6
    → is_quantity t ≡ true
    → parse_inventory_quantity (text t) (number p) ≡ atoms_of_text p t
unfolding parse_inventory_quantity unit_precision_of quantity_of
parse_lem p t few h = let admitted : leb p 6 ≡ true = ground arith in rw admitted (rw h refl)

atoms_of_text_lem :
    (p : ℕ) (t : Chars)
    → length (trim_zeros (field 1 (fields b'.' (unsigned t)))) ≤ p
    → atoms_of_text p t ≡ (
        let parts = fields b'.' (unsigned t) in
        let atoms = atoms_of p (field 0 parts) (trim_zeros (field 1 parts)) in
        ok (if is_signed t then neg atoms else pos atoms))
unfolding atoms_of_text
atoms_of_text_lem p t short =
    let fits : ltb p (length (trim_zeros (field 1 (fields b'.' (unsigned t))))) ≡ false =
      ground arith in
    rw fits refl

neg-suc : (n k : ℕ) → k ≡ suc n → neg k ≡ negsuc n
neg-suc n k h = ap neg h

-- Reading a sign and a magnitude.
read_lem :
    (p : ℕ) (atoms : ℤ)
    → p ≤ 6
    → absolute atoms < 10 ^ (24 + p)
    → parse_inventory_quantity
        (text (sign_text atoms ++ text_of_magnitude p (absolute atoms)))
        (number p)
      ≡ ok atoms
unfolding sign_text is_quantity
read_lem p (pos n) few fits =
    let (no_sign, same) = text_of_magnitude-unsigned p n few fits in
    let (short, value) = atoms_of-text_of_magnitude p n few fits in
    let decimal = text_of_magnitude-is_decimal p n few fits in
    let size : leb (length (text_of_magnitude p n)) 32 ≡ true =
      ground (arith, length-text_of_magnitude-le p n few fits) in
    parse_lem p (text_of_magnitude p n) few (rw same (rw size decimal))
    ∙ atoms_of_text_lem p (text_of_magnitude p n) (rw same short)
    ∙ rw same (rw no_sign (rw value refl))
read_lem p (negsuc n) few fits =
    let (short, value) = atoms_of-text_of_magnitude p (suc n) few fits in
    let decimal = text_of_magnitude-is_decimal p (suc n) few fits in
    let size : leb (suc (length (text_of_magnitude p (suc n)))) 32 ≡ true =
      ground (arith, length-text_of_magnitude-le p (suc n) few fits) in
    parse_lem p (b'-' ∷ text_of_magnitude p (suc n)) few (rw size decimal)
    ∙ atoms_of_text_lem p (b'-' ∷ text_of_magnitude p (suc n)) short
    ∙ ap ok (neg-suc n _ value)

text_of_atoms_lem :
    (p : ℕ) (atoms : ℤ) (formatted : Chars)
    → text_of_atoms p atoms ≡ ok formatted
    → (absolute atoms < 10 ^ (24 + p))
      × (sign_text atoms ++ text_of_magnitude p (absolute atoms) ≡ formatted)
unfolding text_of_atoms sign_text
text_of_atoms_lem p atoms formatted h = elim (Bool-cases (leb (10 ^ (24 + p)) (absolute atoms))) [
  | inl e ↦ absurd (ground arith)
  | inr e ↦ (ground arith, ground arith)
]

format_lem :
    (p : ℕ) (atoms : ℤ) → p ≤ 6 → format_inventory_quantity atoms (number p) ≡ text_of_atoms p atoms
unfolding format_inventory_quantity unit_precision_of
format_lem p atoms few = let admitted : leb p 6 ≡ true = ground arith in rw admitted refl

-- A format answers only at a precision from 0 to 6.
format-precision :
    (atoms : ℤ) (unit_precision : Unknown) (formatted : Chars)
    → format_inventory_quantity atoms unit_precision ≡ ok formatted
    → (p : ℕ) × (unit_precision ≡ number p) × (p ≤ 6)
unfolding format_inventory_quantity unit_precision_of
format-precision atoms (number n) formatted h = (n, refl, ground arith)
format-precision atoms (text t) formatted h = cc
format-precision atoms other formatted h = cc

-- Whatever text formatInventoryQuantity answers for atoms and a precision is read back by
-- parseInventoryQuantity, at that precision, as those atoms.
pub parse_inventory_quantity-format_inventory_quantity :
    (atoms : ℤ) (unit_precision : Unknown) (formatted : Chars)
    → format_inventory_quantity atoms unit_precision ≡ ok formatted
    → parse_inventory_quantity (text formatted) unit_precision ≡ ok atoms
parse_inventory_quantity-format_inventory_quantity atoms unit_precision formatted h =
    let (p, is_p, few) = format-precision atoms unit_precision formatted h in
    let at_p : format_inventory_quantity atoms (number p) ≡ ok formatted =
      subst (λ u. format_inventory_quantity atoms u ≡ ok formatted) is_p h in
    let (fits, written) =
      text_of_atoms_lem p atoms formatted (sym (format_lem p atoms few) ∙ at_p) in
    rw is_p (
      subst (λ t. parse_inventory_quantity (text t) (number p) ≡ ok atoms) written
        (read_lem p atoms few fits))
