-- ===== src/OrderIntake/Pricing/Lines.antt =====
-- One requested line: when it is sold, and at what price, with no loop and no accumulator.
use merchant_operations_plat.Prelude.{
  ◌≤◌, ◌≡◌, refl, ◌⊎◌, ◌↔◌, inl, inr, true, false, not, ◌&&◌, ◌||◌, Option, none, some, List, [],
  ◌∷◌, Uuid, ok, arith, length, All, contains, Result-cases, Option-cases, Text,
}
use merchant_operations_plat.Prelude.Int.{ℤ, pos, ◌+ℤ◌, ◌*ℤ◌}
use merchant_operations_plat.OrderIntake.Pricing.{
  MenuOption, MenuProduct, RequestedLine, PricedLine, find_variant, to_set, is_some, is_empty,
  take_groups, start_of, line_of, price_line,
}
use merchant_operations_plat.OrderIntake.Pricing.Groups.{
  total_deltas, all_named, matches, IsInBounds, take_groups-ok, take_groups-IsInBounds,
}

-- No identifier is named twice.
abbrev IsDistinct : List Uuid → Type 0
IsDistinct [] = Unit
IsDistinct (x ∷ xs) = (contains x xs ≡ false) × IsDistinct xs

length-to_set-le : (xs : List Uuid) → length (to_set xs) ≤ length xs
unfolding to_set
length-to_set-le [] = omega arith
length-to_set-le (x ∷ xs) = ground (arith, length-to_set-le xs)

to_set_distinct : (xs : List Uuid) → IsDistinct xs → to_set xs ≡ xs
unfolding to_set
to_set_distinct [] h = refl
to_set_distinct (x ∷ xs) h = rw (h.0, to_set_distinct xs h.1)

length-to_set-IsDistinct : (xs : List Uuid) → length (to_set xs) ≡ length xs → IsDistinct xs
unfolding to_set
length-to_set-IsDistinct [] h = tt
length-to_set-IsDistinct (x ∷ xs) h = (
  ground (arith, length-to_set-le xs),
  length-to_set-IsDistinct xs (ground (arith, length-to_set-le xs)),
)

-- A product sold by variant needs one of its variants; any other product takes none.
abbrev VariantFits : MenuProduct → RequestedLine → Type 0
VariantFits product line =
    (is_some (find_variant product.variants line.variant_id) ≡ true)
    ⊎ ((product.variants ≡ []) × (line.variant_id ≡ none))

pub record IsSold (product : MenuProduct) (line : RequestedLine) : Type 0 where
  pub variant_fits : VariantFits product line
  pub options_distinct : IsDistinct line.modifier_option_ids
  pub groups_in_bounds : All (IsInBounds line.modifier_option_ids) product.modifier_groups
  pub options_known :
      matches line.modifier_option_ids product.modifier_groups ≡ length line.modifier_option_ids

abbrev extra_of : Option MenuOption → ℤ
extra_of none = pos 0
extra_of (some v) = v.price_delta_minor

abbrev name_of : Option MenuOption → Option Text
name_of none = none
name_of (some v) = some v.name

-- The price of one unit: the product's, its variant's surcharge and those of the chosen options.
abbrev unit_price : MenuProduct → RequestedLine → ℤ
unit_price product line =
    product.price_minor
    +ℤ extra_of (find_variant product.variants line.variant_id)
    +ℤ total_deltas line.modifier_option_ids product.modifier_groups

abbrev pub quote_of : MenuProduct → RequestedLine → PricedLine
quote_of product line = record {
  line_total_minor = unit_price product line *ℤ pos line.quantity;
  modifiers = all_named line.modifier_option_ids product.modifier_groups;
  name = product.name;
  note = line.note;
  product_id = product.id;
  quantity = line.quantity;
  unit_price_minor = unit_price product line;
  variant_name = name_of (find_variant product.variants line.variant_id);
}

-- The line that the loop answers, where it reaches these sums.
line_of-quote_of :
    (product : MenuProduct) (line : RequestedLine)
    → line_of product line (find_variant product.variants line.variant_id) (record {
      unit_price_minor =
          (start_of product (find_variant product.variants line.variant_id)).unit_price_minor
          +ℤ total_deltas line.modifier_option_ids product.modifier_groups;
      modifiers = all_named line.modifier_option_ids product.modifier_groups;
      matched = matches line.modifier_option_ids product.modifier_groups;
    })
      ≡ quote_of product line
line_of-quote_of product line =
    elim (Option-cases (find_variant product.variants line.variant_id)) [
      | inl e ↦ rw e refl
      | inr (v, e) ↦ rw e refl
    ]

variant_test :
    (variants : List MenuOption) (id : Option Uuid) (found : Option MenuOption)
    → (((not (is_empty variants) || is_some id) && not (is_some found)) ≡ false)
      ↔ ((is_some found ≡ true) ⊎ ((variants ≡ []) × (id ≡ none)))
variant_test vs id (some v) = ((λ _. inl refl), (λ _. ground arith))
variant_test [] none none = ((λ _. inr (refl, refl)), (λ _. refl))
variant_test [] (some i) none = ((λ e. cc), (λ e. ground arith))
variant_test (v ∷ vs) id none = ((λ e. cc), (λ e. ground arith))

-- The guard on the variant, as the code writes it.
variant_guard :
    (product : MenuProduct) (line : RequestedLine)
    → ((((not (is_empty product.variants) || is_some line.variant_id)
            && not (is_some (find_variant product.variants line.variant_id)))
          ≡ false)
        ↔ VariantFits product line)
variant_guard product line =
    variant_test product.variants line.variant_id (find_variant product.variants line.variant_id)

price_line-ok :
    (product : MenuProduct) (line : RequestedLine)
    → IsSold product line
    → price_line product line ≡ ok (quote_of product line)
unfolding price_line
price_line-ok product line v = ground (
  arith,
  line_of-quote_of product line,
  to_set_distinct line.modifier_option_ids v.options_distinct,
  (variant_guard product line).1 v.variant_fits,
  take_groups-ok line.modifier_option_ids product.modifier_groups
      (start_of product (find_variant product.variants line.variant_id)) v.groups_in_bounds,
)

price_line-IsSold :
    (product : MenuProduct) (line : RequestedLine) {r : PricedLine}
    → price_line product line ≡ ok r
    → IsSold product line
unfolding price_line
price_line-IsSold product line e =
    let ids = line.modifier_option_ids in
    let start = start_of product (find_variant product.variants line.variant_id) in
    let same : length (to_set ids) ≡ length ids = ground arith in
    let distinct = length-to_set-IsDistinct ids same in
    let chosen = to_set_distinct ids distinct in
    elim (Result-cases (take_groups ids product.modifier_groups start)) [
      | inr (f, failed) ↦ absurd (ground arith)
      | inl (s, done) ↦
          let bounds = take_groups-IsInBounds ids product.modifier_groups start done in
          record {
            variant_fits = (variant_guard product line).0 (ground arith);
            options_distinct = distinct;
            groups_in_bounds = bounds;
            options_known = ground (arith, take_groups-ok ids product.modifier_groups start bounds);
          }
    ]

-- A line is priced exactly when it is sold, and then at the quoted price.
pub price_line_iff :
    (product : MenuProduct) (line : RequestedLine) (r : PricedLine)
    → (price_line product line ≡ ok r) ↔ (IsSold product line × (r ≡ quote_of product line))
price_line_iff product line r = (
  (λ e. (
    price_line-IsSold product line e,
    cc (price_line-ok product line (price_line-IsSold product line e)),
  )),
  (λ h. cc (price_line-ok product line h.0, h.1)),
)
