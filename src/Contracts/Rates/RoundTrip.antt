-- ===== src/Contracts/Rates/RoundTrip.antt =====
-- packages/contracts/src/charges.ts: a printed rate is read back.
use merchant_operations_plat.Prelude.{
  ℕ, ◌+◌, ◌*◌, ◌/◌, ◌%◌, ◌≤◌, ◌≡◌, ap, sym, ◌∙◌, inl, inr, true, false, some, [], ◌∷◌, ◌++◌, arith,
  Bool-cases,
}
use merchant_operations_plat.Digits.{
  Chars, is_digit, is_space, to_text, to_number, pad_end, is_empty, trim,
}
use merchant_operations_plat.Digits.Laws.{
  AreDigits, to_text-AreDigits, length-to_text-le, length-to_text-pos, to_number-to_text,
  span_digits-append, span_digits-all, trim-none, AreDigits-no_space, no_space-append, empty_lem,
  length-not_empty,
}
use merchant_operations_plat.Digits.Fractions.{
  fraction_text, fraction_text-AreDigits, length-fraction_text-le, to_number-fraction_text,
}
use merchant_operations_plat.Contracts.Rates.{
  is_rate, is_mark, is_short, match_fraction, match_rate, basis_points, rate_of_match,
  parse_rate_percent, format_rate_percent,
}

mark_lem : (mark : ℕ) → is_mark mark ≡ true → (is_digit mark ≡ false) × (is_space mark ≡ false)
mark_lem mark h = ground arith

match_rate-whole :
    (whole : Chars) → AreDigits whole → is_short whole ≡ true → match_rate whole ≡ some (whole, [])
unfolding match_rate match_fraction
match_rate-whole whole h short =
    rw (span_digits-all whole h) (rw short (ap (λ p. some (p.0, [])) (span_digits-all whole h)))

match_rate-both :
    (whole fraction : Chars) (mark : ℕ)
    → AreDigits whole
    → is_short whole ≡ true
    → AreDigits fraction
    → is_short fraction ≡ true
    → is_mark mark ≡ true
    → match_rate (whole ++ mark ∷ fraction) ≡ some (whole, fraction)
unfolding match_rate match_fraction
match_rate-both whole fraction mark hw sw hf sf hm =
    let (stop, _) = mark_lem mark hm in
    rw (span_digits-append whole mark fraction hw stop) (
      rw sw (
        rw (span_digits-all fraction hf) (
          rw hm (
            rw sf
              (ap (λ p. some (p.0, fraction)) (span_digits-append whole mark fraction hw stop))))))

-- The printed text matches, in the groups it was made of.
match_rate-format_rate_percent :
    (rate mark : ℕ)
    → rate ≤ 5000
    → is_mark mark ≡ true
    → match_rate (trim (format_rate_percent rate mark))
      ≡ some (to_text (rate / 100), fraction_text 2 (rate % 100))
unfolding format_rate_percent fraction_text
match_rate-format_rate_percent rate mark h hm =
    let whole = to_text (rate / 100) in
    let digits : AreDigits whole = to_text-AreDigits (rate / 100) in
    let short : is_short whole ≡ true =
      ground
        (arith, length-to_text-le (rate / 100) 1 (ground arith), length-to_text-pos (rate / 100)) in
    let fraction = fraction_text 2 (rate % 100) in
    let clean = AreDigits-no_space whole digits in
    elim (Bool-cases (is_empty fraction)) [
      | inl e ↦ rw e (
          ap match_rate (trim-none whole clean)
          ∙ match_rate-whole whole digits short
          ∙ ap (λ t. some (whole, t)) (sym (empty_lem fraction e)))
      | inr e ↦
          let (_, seen) = mark_lem mark hm in
          let after = fraction_text-AreDigits 2 (rate % 100) in
          let small : is_short fraction ≡ true = ground (
            arith,
            length-fraction_text-le 2 (rate % 100) (ground arith),
            length-not_empty fraction e,
          ) in
          rw e (
            ap match_rate (
              trim-none (whole ++ mark ∷ fraction) (
                no_space-append whole (mark ∷ fraction) clean
                  (seen, AreDigits-no_space fraction after)))
            ∙ match_rate-both whole fraction mark digits short after small hm)
    ]

-- A rate from 0 to 5000 basis points that formatRatePercent prints, with a full stop or a comma
-- as its mark, is read back by parseRatePercent.
pub parse_rate_percent-format_rate_percent :
    (rate mark : ℕ)
    → rate ≤ 5000
    → is_mark mark ≡ true
    → parse_rate_percent (format_rate_percent rate mark) ≡ some rate
unfolding parse_rate_percent rate_of_match basis_points is_rate
parse_rate_percent-format_rate_percent rate mark h hm =
    let value : to_number (to_text (rate / 100)) * 100
          + to_number (pad_end 2 (fraction_text 2 (rate % 100)))
        ≡ rate =
      omega (
        arith,
        to_number-to_text (rate / 100),
        to_number-fraction_text 2 (rate % 100) (ground arith),
      ) in
    ap rate_of_match (match_rate-format_rate_percent rate mark h hm) ∙ rw value (ground arith)
