-- ===== src/Digits/Fractions.antt =====
-- The digits after a mark: `n.padStart(k, "0").replace(/0+$/, "")` for n below 10 ^ k.
use merchant_operations_plat.Prelude.{
  ℕ, zero, suc, ◌^◌, ◌≤◌, ◌<◌, ◌≡◌, refl, ap, sym, ◌∙◌, arith, length, [], ◌∷◌, ◌==◌, ◌&&◌,
  Bool-cases, inl, inr,
}
use merchant_operations_plat.Digits.{
  Chars, to_text, to_number, pad_start, pad_end, trim_zeros, is_empty, digits_of, number_from,
}
use merchant_operations_plat.Digits.Laws.{
  AreDigits, to_text-AreDigits, pad_start-AreDigits, trim_zeros-AreDigits, length-to_text-le,
  length-pad_start, length-trim_zeros-le, pad_end-trim_zeros, to_number-to_text,
  to_number-pad_start,
}

-- The padded text without the zeros at its end.
unfoldable pub fraction_text : ℕ → ℕ → Chars
fraction_text k n = trim_zeros (pad_start k (to_text n))

pub fraction_text-AreDigits : (k n : ℕ) → AreDigits (fraction_text k n)
unfolding fraction_text
fraction_text-AreDigits k n =
    trim_zeros-AreDigits (pad_start k (to_text n))
      (pad_start-AreDigits k (to_text n) (to_text-AreDigits n))

trim_zeros_twice : (cs : Chars) → trim_zeros (trim_zeros cs) ≡ trim_zeros cs
unfolding trim_zeros
trim_zeros_twice [] = refl
trim_zeros_twice (c ∷ cs) =
    let again = trim_zeros_twice cs in
    elim (Bool-cases (c == b'0' && is_empty (trim_zeros cs))) [
      | inl e ↦ rw e refl
      | inr e ↦ rw e (rw again (rw e refl))
    ]

pub trim_zeros-fraction_text : (k n : ℕ) → trim_zeros (fraction_text k n) ≡ fraction_text k n
unfolding fraction_text
trim_zeros-fraction_text k n = trim_zeros_twice (pad_start k (to_text n))

full_length : (k n : ℕ) → n < 10 ^ suc k → length (pad_start (suc k) (to_text n)) ≡ suc k
full_length k n h = length-pad_start (suc k) (to_text n) (length-to_text-le n k h)

pub length-fraction_text-le : (k n : ℕ) → n < 10 ^ k → length (fraction_text k n) ≤ k
unfolding fraction_text trim_zeros pad_start to_text digits_of
length-fraction_text-le zero zero h = omega arith
length-fraction_text-le zero (suc n) h = absurd (omega arith)
length-fraction_text-le (suc k) n h =
    omega (arith, length-trim_zeros-le (pad_start (suc k) (to_text n)), full_length k n h)

-- Padded at the end again, they stand for the number.
pub to_number-fraction_text : (k n : ℕ) → n < 10 ^ k → to_number (pad_end k (fraction_text k n)) ≡ n
unfolding fraction_text trim_zeros pad_start pad_end to_text digits_of to_number number_from
to_number-fraction_text zero zero h = refl
to_number-fraction_text zero (suc n) h = absurd (omega arith)
to_number-fraction_text (suc k) n h =
    ap (λ j. to_number (pad_end j (fraction_text (suc k) n))) (sym (full_length k n h))
    ∙ ap to_number (pad_end-trim_zeros (pad_start (suc k) (to_text n)))
    ∙ to_number-pad_start (suc k) (to_text n)
    ∙ to_number-to_text n
