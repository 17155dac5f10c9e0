-- ===== src/Inventory/Quantity/Texts.antt =====
-- packages/contracts/src/inventory.ts: the texts of decimals, and JavaScript's `split` on a mark.
pub mod Laws
use merchant_operations_plat.Prelude.{
  ℕ, zero, suc, Bool, true, false, ◌&&◌, ◌||◌, List, [], ◌∷◌, leb, ◌==◌, length, if◌then◌else◌,
}
use merchant_operations_plat.Digits.{Chars, is_digit, is_empty, span_digits}

abbrev pub put_before : ℕ → List Chars → List Chars
put_before c [] = (c ∷ []) ∷ []
put_before c (part ∷ parts) = (c ∷ part) ∷ parts

-- `cs.split(mark)`
unfoldable pub fields : ℕ → Chars → List Chars
fields mark [] = [] ∷ []
fields mark (c ∷ cs) =
    let rest = fields mark cs in if c == mark then [] ∷ rest else put_before c rest

-- `parts[n] ?? ""`
abbrev pub field : ℕ → List Chars → Chars
field n [] = []
field zero (part ∷ parts) = part
field (suc n) (part ∷ parts) = field n parts

-- `0|[1-9]\d{0,most-1}` on a text of digits
unfoldable pub is_whole : ℕ → Chars → Bool
is_whole most [] = false
is_whole most (c ∷ cs) = is_empty cs || (leb b'1' c && leb (suc (length cs)) most)

-- `(?:\.\d{1,scale})?$`
unfoldable pub is_fraction : ℕ → Chars → Bool
is_fraction scale [] = true
is_fraction scale (c ∷ cs) =
    let (ds, rest) = span_digits cs in
    c == b'.' && (is_empty rest && (leb 1 (length ds) && leb (length ds) scale))

-- `^(?:0|[1-9]\d{0,most-1})(?:\.\d{1,scale})?$`
unfoldable pub is_decimal : ℕ → ℕ → Chars → Bool
is_decimal most scale cs =
    let (whole, rest) = span_digits cs in is_whole most whole && is_fraction scale rest

-- `fraction ? "." + fraction : ""`
unfoldable pub after_mark : Chars → Chars
after_mark ds = if is_empty ds then [] else b'.' ∷ ds
