-- ===== src/Digits.antt =====
-- Decimal texts as lists of code points, and JavaScript's functions on them: `String(n)`,
-- `Number` and `BigInt` on digits, `padStart`, `padEnd`, `replace(/0+$/, "")` and `trim`.
pub mod Laws
pub mod Fractions
use merchant_operations_plat.Prelude.{
  ℕ, zero, suc, ◌+◌, ◌-◌, ◌*◌, ◌/◌, ◌%◌, Bool, true, false, not, ◌&&◌, ◌||◌, List, [], ◌∷◌, ◌++◌,
  ltb, leb, ◌==◌, length, if◌then◌else◌,
}

abbrev pub Chars : Type 0
Chars = List ℕ

-- `\d`
abbrev pub is_digit : ℕ → Bool
is_digit c = leb b'0' c && leb c b'9'

abbrev pub digit : ℕ → ℕ
digit d = b'0' + d

-- The digits of `n`; `fuel` bounds how many there are.
unfoldable pub digits_of : ℕ → ℕ → Chars
digits_of zero n = []
digits_of (suc fuel) n =
    let before = digits_of fuel (n / 10) in (if ltb n 10 then [] else before) ++ digit (n % 10) ∷ []

-- `String(n)`: no number has more digits than it is large, but 0.
unfoldable pub to_text : ℕ → Chars
unfolding digits_of
to_text n = digits_of (suc n) n

-- The number that the digits stand for, after those that make `n`.
unfoldable pub number_from : ℕ → Chars → ℕ
number_from n [] = n
number_from n (c ∷ cs) = number_from (n * 10 + (c - b'0')) cs

-- `Number(cs)` and `BigInt(cs)` where `cs` are digits.
unfoldable pub to_number : Chars → ℕ
unfolding number_from
to_number cs = number_from 0 cs

abbrev pub zeros : ℕ → Chars
zeros zero = []
zeros (suc n) = b'0' ∷ zeros n

-- `cs.padStart(n, "0")`, `cs.padEnd(n, "0")`
unfoldable pub pad_start : ℕ → Chars → Chars
pad_start n cs = zeros (n - length cs) ++ cs

unfoldable pub pad_end : ℕ → Chars → Chars
pad_end n cs = cs ++ zeros (n - length cs)

abbrev pub is_empty : Chars → Bool
is_empty [] = true
is_empty (_ ∷ _) = false

-- `cs.replace(/0+$/, "")`
unfoldable pub trim_zeros : Chars → Chars
trim_zeros [] = []
trim_zeros (c ∷ cs) =
    let rest = trim_zeros cs in if c == b'0' && is_empty rest then [] else c ∷ rest

-- The longest run of digits at the front, and what follows it.
unfoldable pub span_digits : Chars → Chars × Chars
span_digits [] = ([], [])
span_digits (c ∷ cs) =
    let (ds, rest) = span_digits cs in if is_digit c then (c ∷ ds, rest) else ([], c ∷ cs)

-- White space and line ends of the language.
abbrev pub is_space : ℕ → Bool
is_space c =
    (leb 9 c && leb c 13)
    || (c == 32
        || (c == 160
            || (c == 5760
                || ((leb 8192 c && leb c 8202)
                    || (c == 8232
                        || (c == 8233
                            || (c == 8239 || (c == 8287 || (c == 12288 || c == 65279)))))))))

unfoldable pub trim_start : Chars → Chars
trim_start [] = []
trim_start (c ∷ cs) = let rest = trim_start cs in if is_space c then rest else c ∷ cs

unfoldable pub trim_end : Chars → Chars
trim_end [] = []
trim_end (c ∷ cs) = let rest = trim_end cs in if is_space c && is_empty rest then [] else c ∷ rest

-- `cs.trim()`
unfoldable pub trim : Chars → Chars
unfolding trim_start trim_end
trim cs = trim_end (trim_start cs)
