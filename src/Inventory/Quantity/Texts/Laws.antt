-- ===== src/Inventory/Quantity/Texts/Laws.antt =====
-- packages/contracts/src/inventory.ts: which texts of digits are decimals, and their parts.
use mathlib.Core.List.{append-nil}
use merchant_operations_plat.Prelude.{
  ℕ, zero, suc, ◌^◌, ◌≤◌, ◌<◌, ◌≡◌, refl, ap, ◌∙◌, arith, true, false, ◌&&◌, [], ◌∷◌, ◌++◌, leb,
  ◌==◌, length,
}
use merchant_operations_plat.Digits.{Chars, is_empty, to_text, digits_of}
use merchant_operations_plat.Digits.Laws.{
  AreDigits, starts_positive, to_text-starts_positive, length-to_text-le, span_digits-append,
  span_digits-all,
}
use merchant_operations_plat.Inventory.Quantity.Texts.{
  fields, field, is_whole, is_fraction, is_decimal, after_mark,
}

pub fields-AreDigits : (ds : Chars) → AreDigits ds → fields b'.' ds ≡ ds ∷ []
unfolding fields
fields-AreDigits [] h = refl
fields-AreDigits (d ∷ ds) (h, hs) =
    let other_mark : (d == b'.') ≡ false = ground arith in
    rw other_mark (rw (fields-AreDigits ds hs) refl)

pub fields-append :
    (ds rest : Chars) → AreDigits ds → fields b'.' (ds ++ b'.' ∷ rest) ≡ ds ∷ fields b'.' rest
unfolding fields
fields-append [] rest h = refl
fields-append (d ∷ ds) rest (h, hs) =
    let other_mark : (d == b'.') ≡ false = ground arith in
    rw other_mark (rw (fields-append ds rest hs) refl)

starts_positive-is_whole :
    (most : ℕ) (cs : Chars) → starts_positive cs ≡ true → length cs ≤ most → is_whole most cs ≡ true
unfolding is_whole
starts_positive-is_whole most [] h fits = cc
starts_positive-is_whole most (c ∷ cs) h fits = ground arith

-- A printed number of few enough digits has the form of a whole part.
pub to_text-is_whole : (k n : ℕ) → n < 10 ^ suc k → is_whole (suc k) (to_text n) ≡ true
unfolding is_whole to_text digits_of
to_text-is_whole k zero h = refl
to_text-is_whole k (suc n) h =
    starts_positive-is_whole (suc k) (to_text (suc n))
      (to_text-starts_positive (suc n) (omega arith)) (length-to_text-le (suc n) k h)

pub after_mark-is_decimal :
    (most scale : ℕ) (whole ds : Chars)
    → AreDigits whole
    → is_whole most whole ≡ true
    → AreDigits ds
    → length ds ≤ scale
    → is_decimal most scale (whole ++ after_mark ds) ≡ true
unfolding after_mark is_decimal is_fraction
after_mark-is_decimal most scale whole [] hw fits hd few =
    let whole_text : whole ++ [] ≡ whole = append-nil whole in
    rw whole_text (
      ap (λ p. is_whole most p.0 && is_fraction scale p.1) (span_digits-all whole hw)
      ∙ rw fits refl)
after_mark-is_decimal most scale whole (d ∷ ds) hw fits hd few =
    let fraction : is_fraction scale (b'.' ∷ d ∷ ds) ≡ true =
      ap (λ p. is_empty p.1 && (leb 1 (length p.0) && leb (length p.0) scale))
        (span_digits-all (d ∷ ds) hd)
      ∙ ground arith in
    ap (λ p. is_whole most p.0 && is_fraction scale p.1)
      (span_digits-append whole b'.' (d ∷ ds) hw refl)
    ∙ rw fits fraction

pub fields-after_mark :
    (whole ds : Chars)
    → AreDigits whole
    → AreDigits ds
    → (field 0 (fields b'.' (whole ++ after_mark ds)) ≡ whole)
      × (field 1 (fields b'.' (whole ++ after_mark ds)) ≡ ds)
unfolding after_mark
fields-after_mark whole [] hw hd =
    let parts : fields b'.' (whole ++ []) ≡ whole ∷ [] =
      ap (fields b'.') (append-nil whole) ∙ fields-AreDigits whole hw in
    (ap (field 0) parts, ap (field 1) parts)
fields-after_mark whole (d ∷ ds) hw hd =
    let parts : fields b'.' (whole ++ b'.' ∷ d ∷ ds) ≡ whole ∷ (d ∷ ds) ∷ [] =
      fields-append whole (d ∷ ds) hw ∙ ap (λ f. whole ∷ f) (fields-AreDigits (d ∷ ds) hd) in
    (ap (field 0) parts, ap (field 1) parts)
