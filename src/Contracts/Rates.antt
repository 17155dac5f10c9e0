-- ===== src/Contracts/Rates.antt =====
-- packages/contracts/src/charges.ts: rates as a person types them, in percent. The mark between
-- whole percents and the fraction is a full stop or a comma.
mod RoundTrip
mod Tests
use merchant_operations_plat.Prelude.{
  ℕ, ◌+◌, ◌*◌, ◌/◌, ◌%◌, Bool, ◌&&◌, ◌||◌, Option, none, some, List, [], ◌∷◌, ◌++◌, leb, ◌==◌,
  length, if◌then◌else◌,
}
use merchant_operations_plat.Digits.{
  Chars, to_text, to_number, pad_start, pad_end, is_empty, trim_zeros, span_digits, trim,
}

-- `chargeRateBpSchema`
unfoldable pub is_rate : ℕ → Bool
is_rate n = leb n 5000

-- `[.,]`
abbrev pub is_mark : ℕ → Bool
is_mark c = c == b'.' || c == b','

-- `\d{1,2}` up to the end or to something that is no digit
abbrev pub is_short : Chars → Bool
is_short cs = leb 1 (length cs) && leb (length cs) 2

-- `(?:[.,](\d{1,2}))?$`: the second group, empty where the text ends before it.
unfoldable pub match_fraction : Chars → Option Chars
match_fraction [] = some []
match_fraction (mark ∷ cs) =
    let (ds, rest) = span_digits cs in
    if is_mark mark && (is_short ds && is_empty rest) then some ds else none

-- Both groups of the match. A third digit after a first group never matches.
unfoldable pub match_rate : Chars → Option (Chars × Chars)
match_rate cs =
    let (ds, rest) = span_digits cs in
    if is_short ds
    then elim (match_fraction rest) [ none ↦ none | some fraction ↦ some (ds, fraction) ]
    else none

unfoldable pub basis_points : Chars → Chars → ℕ
basis_points whole fraction = to_number whole * 100 + to_number (pad_end 2 fraction)

unfoldable pub rate_of_match : Option (Chars × Chars) → Option ℕ
rate_of_match none = none
rate_of_match (some (whole, fraction)) =
    let rate = basis_points whole fraction in if is_rate rate then some rate else none

unfoldable pub parse_rate_percent : Chars → Option ℕ
parse_rate_percent text = rate_of_match (match_rate (trim text))

unfoldable pub format_rate_percent : ℕ → ℕ → Chars
format_rate_percent rate mark =
    let whole = to_text (rate / 100) in
    let fraction = trim_zeros (pad_start 2 (to_text (rate % 100))) in
    if is_empty fraction then whole else whole ++ mark ∷ fraction
