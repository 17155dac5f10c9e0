-- ===== src/OrderIntake/Pricing/Orders.antt =====
-- Whole orders: what `priceOrderLines` accepts, what it charges, and which line it reports.
use mathlib.Core.List.{append_assoc, append-nil}
use merchant_operations_plat.Prelude.{
  ℕ, ◌+◌, ◌≡◌, refl, sym, ◌∙◌, ◌⊎◌, inl, inr, Option, none, some, List, [], ◌∷◌, ◌++◌, Text, ok,
  err, arith, ◌==◌, Bool-cases, Option-cases, Result-cases,
}
use merchant_operations_plat.Prelude.Int.{ℤ, pos, ◌+ℤ◌, +ℤ_assoc, +ℤ_zero, zero-+ℤ}
use merchant_operations_plat.OrderIntake.Pricing.{
  MenuProduct, RequestedLine, PricedLine, PricedOrder, FailedLine, PricingFailure, menu_get,
  price_line, or_currency, price_from, price_order_lines, at_line,
}
use merchant_operations_plat.OrderIntake.Pricing.Menus.{OffersLast, menu_get_iff}
use merchant_operations_plat.OrderIntake.Pricing.Lines.{IsSold, quote_of, price_line_iff}

-- The lines, each sold from the menu in the currency `c`, with their quotes.
pub data Quotes (menu : List MenuProduct) (c : Text)
    : List RequestedLine → List PricedLine → Type 0 where
  done : Quotes menu c [] []
  next :
      (product : MenuProduct) (line : RequestedLine) {lines : List RequestedLine}
      {quotes : List PricedLine}
      → OffersLast menu line.product_id product
      → product.currency ≡ c
      → IsSold product line
      → Quotes menu c lines quotes
      → Quotes menu c (line ∷ lines) (quote_of product line ∷ quotes)

abbrev sum_lines : List PricedLine → ℤ
sum_lines [] = pos 0
sum_lines (l ∷ ls) = l.line_total_minor +ℤ sum_lines ls

abbrev pub order_of : Text → List PricedLine → PricedOrder
order_of c lines = record { currency = c; lines = lines; subtotal_minor = sum_lines lines }

-- The step of the loop, when its line is sold.
price_from-next :
    (menu : List MenuProduct) (i : ℕ) (cur : Option Text) (acc : List PricedLine) (sub : ℤ)
    (product : MenuProduct) (line : RequestedLine) (rest : List RequestedLine)
    → menu_get menu line.product_id ≡ some product
    → or_currency cur product.currency ≡ product.currency
    → IsSold product line
    → price_from menu i cur acc sub (line ∷ rest)
      ≡ price_from menu
          (i + 1)
          (some product.currency)
          (acc ++ quote_of product line ∷ [])
          (sub +ℤ (quote_of product line).line_total_minor)
          rest
unfolding price_from
price_from-next menu i cur acc sub product line rest found same sold =
    ground (arith, (price_line_iff product line (quote_of product line)).1 (sold, refl))

price_from-nil :
    (menu : List MenuProduct) (c : Text) (i : ℕ) (acc : List PricedLine) (sub : ℤ)
    → price_from menu i (some c) acc sub []
      ≡ ok (record { currency = c; lines = acc; subtotal_minor = sub })
unfolding price_from
price_from-nil menu c i acc sub = refl

price_from-Quotes :
    (menu : List MenuProduct) (c : Text) (i : ℕ) (acc : List PricedLine) (sub : ℤ)
    {lines : List RequestedLine} {quotes : List PricedLine}
    → Quotes menu c lines quotes
    → price_from menu i (some c) acc sub lines
      ≡ ok
          (record { currency = c; lines = acc ++ quotes; subtotal_minor = sub +ℤ sum_lines quotes })
price_from-Quotes menu c i acc sub done = rw price_from-nil (simp (append-nil, +ℤ_zero))
price_from-Quotes menu c i acc sub (next product line {lines} {quotes} found same sold q) =
    price_from-next menu i (some c) acc sub product line lines
      ((menu_get_iff menu line.product_id product).1 found) (sym same) sold
    ∙ rw same (
        price_from-Quotes menu c (i + 1) (acc ++ quote_of product line ∷ [])
          (sub +ℤ (quote_of product line).line_total_minor) q
        ∙ simp (append_assoc, +ℤ_assoc))

-- An order of at least one line, all sold in one currency, is priced, at the sum of its quotes.
pub price_order_lines-ok :
    (menu : List MenuProduct) (c : Text) (line : RequestedLine) (lines : List RequestedLine)
    (quotes : List PricedLine)
    → Quotes menu c (line ∷ lines) quotes
    → price_order_lines menu (line ∷ lines) ≡ ok (order_of c quotes)
unfolding price_order_lines
price_order_lines-ok menu c line lines quotes (next product _ found same sold q) =
    price_from-next menu 0 none [] (pos 0) product line lines
      ((menu_get_iff menu line.product_id product).1 found) refl sold
    ∙ rw same (price_from-Quotes menu c 1 _ _ q ∙ simp zero-+ℤ)

-- The line is on the menu, in the currency agreed so far, and sold.
abbrev pub Fits : List MenuProduct → Option Text → RequestedLine → Type 0
Fits menu cur line =
    (product : MenuProduct) × OffersLast menu line.product_id product
    × (or_currency cur product.currency ≡ product.currency)
    × IsSold product line

-- `f` reports the first line, counted from `i`, that does not fit.
pub data FailsAt (menu : List MenuProduct) (f : FailedLine)
    : Option Text → ℕ → List RequestedLine → Type 0 where
  here :
      {cur : Option Text} {i : ℕ} {line : RequestedLine} {lines : List RequestedLine}
      → f.line_index ≡ i
      → ¬ Fits menu cur line
      → FailsAt menu f cur i (line ∷ lines)
  later :
      {cur : Option Text} {i : ℕ} {line : RequestedLine} {lines : List RequestedLine}
      → (fit : Fits menu cur line) → FailsAt menu f (some (fit.0).currency) (i + 1) lines
      → FailsAt menu f cur i (line ∷ lines)

-- What a line does to the loop: it fits, or the loop stops there.
price_from_cases :
    (menu : List MenuProduct) (i : ℕ) (cur : Option Text) (acc : List PricedLine) (sub : ℤ)
    (line : RequestedLine) (rest : List RequestedLine)
    → Fits menu cur line
      ⊎ (¬ Fits menu cur line
          × ((f : FailedLine) × (f.line_index ≡ i)
              × (price_from menu i cur acc sub (line ∷ rest) ≡ err f)))
unfolding price_from
price_from_cases menu i cur acc sub line rest =
    elim (Option-cases (menu_get menu line.product_id)) [
      | inl missing ↦ inr (
        (λ (p, offered, same, sold).
            let found' = (menu_get_iff menu line.product_id p).1 offered in absurd (ground arith)),
        (at_line i PricingFailure.order_product_unavailable, refl, ground arith),
      )
      | inr (product, found) ↦
          elim (Bool-cases (product.currency == or_currency cur product.currency)) [
            | inl same ↦ elim (Result-cases (price_line product line)) [
              | inl (r, sold) ↦ inl (
                product,
                (menu_get_iff menu line.product_id product).0 found,
                ground arith,
                ((price_line_iff product line r).0 sold).0,
              )
              | inr (code, unsold) ↦ inr (
                λ (p, offered, same', sold).
                    let found' = (menu_get_iff menu line.product_id p).1 offered in
                    absurd (
                      cc (
                        unsold,
                        found,
                        found',
                        (price_line_iff p line (quote_of p line)).1 (sold, refl),
                      )),
                (at_line i code, refl, ground arith),
              )
            ]
            | inr mixed ↦ inr (
              λ (p, offered, same', sold).
                  let found' = (menu_get_iff menu line.product_id p).1 offered in
                  absurd (ground arith),
              (at_line i PricingFailure.order_currency_mixed, refl, ground arith),
            )
          ]
    ]

-- From a line on: all of them are sold in the agreed currency, or one is reported.
price_from_decides :
    (menu : List MenuProduct) (c : Text) (i : ℕ) (acc : List PricedLine) (sub : ℤ)
    (lines : List RequestedLine)
    → ((quotes : List PricedLine) × Quotes menu c lines quotes)
      ⊎ ((f : FailedLine) × FailsAt menu f (some c) i lines
          × (price_from menu i (some c) acc sub lines ≡ err f))
price_from_decides menu c i acc sub [] = inl ([], done)
price_from_decides menu c i acc sub (line ∷ rest) =
    elim (price_from_cases menu i (some c) acc sub line rest) [
      | inr (misfit, (f, index, failed)) ↦ inr (f, here index misfit, failed)
      | inl (product, found, same, sold) ↦
          elim (price_from_decides menu product.currency (i + 1) (acc ++ quote_of product line ∷ [])
            (sub +ℤ (quote_of product line).line_total_minor) rest) [
              | inl (quotes, q) ↦ inl (
                quote_of product line ∷ quotes,
                next product line found (sym same) sold (rw same q),
              )
              | inr (f, fails, failed) ↦ inr (
                f,
                later (product, found, same, sold) fails,
                price_from-next menu i (some c) acc sub product line rest
                      ((menu_get_iff menu line.product_id product).1 found) same sold
                    ∙ failed,
              )
            ]
    ]

pub price_order_lines_decides :
    (menu : List MenuProduct) (line : RequestedLine) (lines : List RequestedLine)
    → ((c : Text) × (quotes : List PricedLine) × Quotes menu c (line ∷ lines) quotes
        × (price_order_lines menu (line ∷ lines) ≡ ok (order_of c quotes)))
      ⊎ ((f : FailedLine) × FailsAt menu f none 0 (line ∷ lines)
          × (price_order_lines menu (line ∷ lines) ≡ err f))
unfolding price_order_lines
price_order_lines_decides menu line lines =
    elim (price_from_cases menu 0 none [] (pos 0) line lines) [
      | inr (misfit, (f, index, failed)) ↦ inr (f, here index misfit, failed)
      | inl (product, found, same, sold) ↦
          elim (price_from_decides menu product.currency 1 (quote_of product line ∷ [])
            (pos 0 +ℤ (quote_of product line).line_total_minor) lines) [
              | inl (quotes, q) ↦
                  let all = next product line found refl sold q in
                  inl (
                    product.currency,
                    quote_of product line ∷ quotes,
                    all,
                    price_order_lines-ok menu product.currency line lines _ all,
                  )
              | inr (f, fails, failed) ↦ inr (
                f,
                later (product, found, same, sold) fails,
                price_from-next menu 0 none [] (pos 0) product line lines
                      ((menu_get_iff menu line.product_id product).1 found) refl sold
                    ∙ failed,
              )
            ]
    ]

-- No order is empty: without lines there is nothing to sell.
price_order_lines-nil :
    (menu : List MenuProduct)
    → price_order_lines menu [] ≡ err (at_line 0 PricingFailure.order_product_unavailable)
unfolding price_order_lines
price_order_lines-nil menu = refl
