-- ===== src/Inventory/Quantity/Factors.antt =====
-- apps/api/src/modules/inventory/domain/quantity.ts: what a factor's text stands for.
use mathlib.Core.List.{append-nil}
use native.Mathlib.Nat.{add-mul, mul_assoc, mul_comm, pow-suc}
use merchant_operations_plat.Prelude.{
  ℕ, ◌+◌, ◌*◌, ◌-◌, ◌^◌, ◌≡◌, sym, leb, refl, ap, ◌∙◌, arith, true, [], ◌∷◌, ◌++◌, length, inl, inr,
  Bool-cases,
}
use merchant_operations_plat.Digits.{Chars, is_empty, number_from, to_number, span_digits, is_digit}
use merchant_operations_plat.Digits.Laws.{AreDigits, number_from-append}
use merchant_operations_plat.Inventory.Quantity.Texts.{is_fraction, is_decimal, after_mark}
use merchant_operations_plat.Inventory.Quantity.Texts.Laws.{fields-after_mark}
use merchant_operations_plat.Inventory.Quantity.{coefficient, factor_digits}

shifted : (n d e k : ℕ) → (n * 10 + d) * e + k ≡ n * (e * 10) + ((0 * 10 + d) * e + k)
shifted n d e k =
    let both : n * 10 * e ≡ n * (e * 10) = mul_assoc n 10 e ∙ ap (λ x. n * x) (mul_comm 10 e) in
    omega (arith, add-mul (n * 10) d e, both)

number_from_lem : (n : ℕ) (ds : Chars) → number_from n ds ≡ n * 10 ^ length ds + number_from 0 ds
unfolding number_from
number_from_lem n [] = grind arith
number_from_lem n (d ∷ ds) =
    let a = number_from_lem (n * 10 + (d - b'0')) ds in
    let b = number_from_lem (0 * 10 + (d - b'0')) ds in
    a
    ∙ shifted n (d - b'0') (10 ^ length ds) (number_from 0 ds)
    ∙ ap (λ x. n * (10 ^ length ds * 10) + x) (sym b)
    ∙ ap (λ e. n * e + number_from (0 * 10 + (d - b'0')) ds) (sym (pow-suc 10 (length ds)))

-- A factor counts the parts that its last digit stands for.
pub coefficient_lem :
    (whole ds : Chars)
    → AreDigits whole
    → AreDigits ds
    → (coefficient (whole ++ after_mark ds) ≡ to_number (whole ++ ds))
      × (factor_digits (whole ++ after_mark ds) ≡ length ds)
unfolding coefficient factor_digits to_number
coefficient_lem whole ds hw hd =
    let (a, b) = fields-after_mark whole ds hw hd in
    (
      rw a (rw b (sym (number_from-append 0 whole ds ∙ number_from_lem (number_from 0 whole) ds))),
      ap length b,
    )

span_lem :
    (cs : Chars) → AreDigits (span_digits cs).0 × ((span_digits cs).0 ++ (span_digits cs).1 ≡ cs)
unfolding span_digits
span_lem [] = (tt, refl)
span_lem (c ∷ cs) = elim (Bool-cases (is_digit c)) [
  | inl e ↦ let (h, same) = span_lem cs in rw e ((e, h), ap (λ x. c ∷ x) same)
  | inr e ↦ rw e (tt, refl)
]

is_empty_lem : (cs : Chars) → is_empty cs ≡ true → cs ≡ []
is_empty_lem [] h = refl
is_empty_lem (c ∷ cs) h = absurd (ground arith)

after_mark-some : (ds : Chars) → leb 1 (length ds) ≡ true → after_mark ds ≡ b'.' ∷ ds
unfolding after_mark
after_mark-some [] h = absurd (ground arith)
after_mark-some (d ∷ ds) h = refl

fraction_lem :
    (scale : ℕ) (rest : Chars)
    → is_fraction scale rest ≡ true
    → (ds : Chars) × AreDigits ds × (after_mark ds ≡ rest)
unfolding is_fraction after_mark
fraction_lem scale [] h = ([], tt, refl)
fraction_lem scale (c ∷ cs) h =
    let (digits, same) = span_lem cs in
    let last : (span_digits cs).1 ≡ [] = is_empty_lem (span_digits cs).1 (ground arith) in
    let whole : (span_digits cs).0 ≡ cs =
      sym (append-nil (span_digits cs).0) ∙ ap (λ x. (span_digits cs).0 ++ x) (sym last) ∙ same in
    let mark : c ≡ b'.' = ground arith in
    (
      (span_digits cs).0,
      digits,
      after_mark-some (span_digits cs).0 (ground arith) ∙ rw whole (rw mark refl),
    )

-- A decimal is its digits before the mark and those after it.
pub is_decimal_lem :
    (most scale : ℕ) (cs : Chars)
    → is_decimal most scale cs ≡ true
    → (whole : Chars) × (ds : Chars) × AreDigits whole
      × AreDigits ds
      × (cs ≡ whole ++ after_mark ds)
unfolding is_decimal
is_decimal_lem most scale cs h =
    let (digits, same) = span_lem cs in
    let (ds, hd, rest) = fraction_lem scale (span_digits cs).1 (ground arith) in
    ((span_digits cs).0, ds, digits, hd, sym same ∙ ap (λ x. (span_digits cs).0 ++ x) (sym rest))
