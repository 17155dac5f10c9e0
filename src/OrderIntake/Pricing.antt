-- ===== src/OrderIntake/Pricing.antt =====
-- apps/api/src/kernels/order-intake/domain/price-order.ts: the lines of a new order are priced
-- against the outlet's sellable menu. Prices arrive as integer texts and are read as ℤ.
pub mod Groups
pub mod Lines
pub mod Menus
pub mod Orders
mod Tests
use merchant_operations_plat.Prelude.{
  ℕ, suc, ◌+◌, Bool, true, false, not, ◌&&◌, ◌||◌, Option, none, some, List, [], ◌∷◌, ◌++◌, Uuid,
  Text, Result, ok, err, ◌>>=◌, ◌>>◌, throw_if, or_throw, length, find, filter, contains, ltb, ◌==◌,
  if◌then◌else◌,
}
use merchant_operations_plat.Prelude.Int.{ℤ, pos, ◌+ℤ◌, ◌*ℤ◌}

pub record MenuOption : Type 0 where
  pub id : Uuid
  pub name : Text
  pub price_delta_minor : ℤ

pub record ModifierGroup : Type 0 where
  pub max_selections : ℕ
  pub min_selections : ℕ
  pub name : Text
  pub options : List MenuOption

pub record MenuProduct : Type 0 where
  pub currency : Text
  pub id : Uuid
  pub modifier_groups : List ModifierGroup
  pub name : Text
  pub price_minor : ℤ
  pub variants : List MenuOption

pub record RequestedLine : Type 0 where
  pub modifier_option_ids : List Uuid
  pub note : Option Text
  pub product_id : Uuid
  pub quantity : ℕ
  pub variant_id : Option Uuid

pub record PricedModifier : Type 0 where
  pub group_name : Text
  pub option_name : Text
  pub price_delta_minor : ℤ

pub record PricedLine : Type 0 where
  pub line_total_minor : ℤ
  pub modifiers : List PricedModifier
  pub name : Text
  pub note : Option Text
  pub product_id : Uuid
  pub quantity : ℕ
  pub unit_price_minor : ℤ
  pub variant_name : Option Text

pub data PricingFailure : Type 0 where
  order_currency_mixed order_modifier_invalid order_modifier_selection_invalid : PricingFailure
  order_product_unavailable order_variant_invalid : PricingFailure

pub record PricedOrder : Type 0 where
  pub currency : Text
  pub lines : List PricedLine
  pub subtotal_minor : ℤ

pub record FailedLine : Type 0 where
  pub code : PricingFailure
  pub line_index : ℕ

-- `new Map(products.map(...)).get(id)`: of two products with one id the later stands.
unfoldable pub menu_get : List MenuProduct → Uuid → Option MenuProduct
menu_get [] id = none
menu_get (p ∷ ps) id = elim (menu_get ps id) [
  | some q ↦ some q
  | none ↦ if p.id == id then some p else none
]

-- `product.variants.find((item) => item.id === line.variantId)`
abbrev pub find_variant : List MenuOption → Option Uuid → Option MenuOption
find_variant variants none = none
find_variant variants (some id) = find (λ item. item.id == id) variants

-- `new Set(ids)`: only its size and its members are read.
unfoldable pub to_set : List Uuid → List Uuid
to_set [] = []
to_set (x ∷ xs) = let rest = to_set xs in if contains x xs then rest else x ∷ rest

abbrev pub is_some {ℓ} : {A : Type ℓ} → Option A → Bool
is_some none = false
is_some (some _) = true

abbrev pub is_empty {ℓ} : {A : Type ℓ} → List A → Bool
is_empty [] = true
is_empty (_ ∷ _) = false

-- What the loop over the groups carries: `unitPriceMinor`, `modifiers`, `matched`.
pub record Selection : Type 0 where
  pub unit_price_minor : ℤ
  pub modifiers : List PricedModifier
  pub matched : ℕ

-- `for (const option of picked)`
unfoldable pub take_options : Text → List MenuOption → Selection → Selection
take_options group_name [] s = s
take_options group_name (o ∷ os) s = take_options group_name os (record s {
  unit_price_minor = s.unit_price_minor +ℤ o.price_delta_minor;
  modifiers = s.modifiers ++ modifier ∷ [];
})
  where
    modifier : PricedModifier
    modifier = record {
      group_name = group_name;
      option_name = o.name;
      price_delta_minor = o.price_delta_minor;
    }

abbrev pub picked : List Uuid → ModifierGroup → List MenuOption
picked chosen group = filter (λ o. contains o.id chosen) group.options

-- `for (const group of product.modifierGroups)`
unfoldable pub take_groups :
    List Uuid → List ModifierGroup → Selection → Result PricingFailure Selection
unfolding take_options
take_groups chosen [] s = ok s
take_groups chosen (g ∷ gs) s =
    let chosen_here = picked chosen g in
    let counted = record s { matched = s.matched + length chosen_here } in
    let rest = take_groups chosen gs (take_options g.name chosen_here counted) in
    if ltb (length chosen_here) g.min_selections || ltb g.max_selections (length chosen_here)
    then err order_modifier_selection_invalid
    else rest

abbrev pub surcharge : Option MenuOption → ℤ
surcharge none = pos 0
surcharge (some v) = v.price_delta_minor

abbrev variant_name_of : Option MenuOption → Option Text
variant_name_of none = none
variant_name_of (some v) = some v.name

abbrev pub start_of : MenuProduct → Option MenuOption → Selection
start_of product variant = record {
  unit_price_minor = product.price_minor +ℤ surcharge variant;
  modifiers = [];
  matched = 0;
}

abbrev pub line_of : MenuProduct → RequestedLine → Option MenuOption → Selection → PricedLine
line_of product line variant s = record {
  line_total_minor = s.unit_price_minor *ℤ pos line.quantity;
  modifiers = s.modifiers;
  name = product.name;
  note = line.note;
  product_id = product.id;
  quantity = line.quantity;
  unit_price_minor = s.unit_price_minor;
  variant_name = variant_name_of variant;
}

-- The body of the loop over the requested lines, once its product is known.
unfoldable pub price_line : MenuProduct → RequestedLine → Result PricingFailure PricedLine
unfolding to_set take_groups
price_line product line = do
  let variant = find_variant product.variants line.variant_id
  throw_if ((not (is_empty product.variants) || is_some line.variant_id) && not (is_some variant))
      order_variant_invalid
  let chosen = to_set line.modifier_option_ids
  throw_if (not (length chosen == length line.modifier_option_ids)) order_modifier_invalid
  s ← take_groups chosen product.modifier_groups (start_of product variant)
  throw_if (not (s.matched == length chosen)) order_modifier_invalid
  ok (line_of product line variant s)

-- `currency ??= product.currency`
abbrev pub or_currency : Option Text → Text → Text
or_currency none c = c
or_currency (some c) _ = c

abbrev pub at_line : ℕ → PricingFailure → FailedLine
at_line i code = record { code = code; line_index = i }

abbrev failing_at {ℓ} : {A : Type ℓ} → ℕ → Result PricingFailure A → Result FailedLine A
failing_at i (ok a) = ok a
failing_at i (err code) = err (at_line i code)

-- The loop, from line `i` on, with the `currency`, `lines` and `subtotalMinor` reached so far.
unfoldable pub price_from :
    List MenuProduct
    → ℕ
    → Option Text
    → List PricedLine
    → ℤ
    → List RequestedLine
    → Result FailedLine PricedOrder
unfolding menu_get price_line
price_from menu i none lines subtotal [] = err (at_line 0 order_product_unavailable)
price_from menu i (some currency) lines subtotal [] =
    ok (record { currency = currency; lines = lines; subtotal_minor = subtotal })
price_from menu i currency lines subtotal (line ∷ rest) = do
  product ← or_throw (menu_get menu line.product_id) (at_line i order_product_unavailable)
  let agreed = or_currency currency product.currency
  throw_if (not (product.currency == agreed)) (at_line i order_currency_mixed)
  priced ← failing_at i (price_line product line)
  price_from menu (i + 1) (some agreed) (lines ++ priced ∷ []) (subtotal +ℤ priced.line_total_minor)
      rest

unfoldable pub price_order_lines :
    List MenuProduct → List RequestedLine → Result FailedLine PricedOrder
unfolding price_from
price_order_lines products requested = price_from products 0 none [] (pos 0) requested
