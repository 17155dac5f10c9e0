-- ===== src/Catalog/SellableMenus.antt =====
-- `buildSellableMenu` of apps/api/src/kernels/catalog/domain/sellable-menu.ts. `locale_compare` is
-- the runtime's `localeCompare`.
use merchant_operations_plat.Prelude.{
  ℕ, min, Bool, true, false, not, ◌&&◌, Option, none, some, List, [], ◌∷◌, map, Uuid, Text, length,
  find, filter, any, contains, ltb, ◌==◌, if◌then◌else◌,
}
use merchant_operations_plat.Prelude.Int.{sub_ℕ}
use merchant_operations_plat.Contracts.Menu.{
  SellableMenuOption, SellableMenuModifierGroup, SellableMenuProduct, SellableMenuCategory,
  SellableMenu,
}
use merchant_operations_plat.Catalog.{
  is_active, is_available, is_offered, Category, Product, ProductVariant, ModifierGroup,
  ModifierOption, ProductModifierGroup, ProductImage, OutletProduct, CatalogSnapshot,
}
use merchant_operations_plat.Catalog.Sorting.{Ordered, Compare, by_display_order, sort}

-- A JavaScript `Map` from the `key` of its values, in the order of their first entry: a later value
-- takes the place of an earlier one.
module _ {A : Type 0} (key : A → Uuid) where
  unfoldable pub map_set : A → List A → List A
  map_set a [] = a ∷ []
  map_set a (x ∷ xs) = if key x == key a then a ∷ xs else x ∷ map_set a xs

  -- `new Map(xs.map((x) => [key(x), x]))`, after the entries `done`.
  unfoldable pub to_map : List A → List A → List A
  unfolding map_set
  to_map done [] = done
  to_map done (x ∷ xs) = to_map (map_set x done) xs

  abbrev pub map_get : List A → Uuid → Option A
  map_get m id = find (λ x. key x == id) m

-- `flatMap` with a body that answers one element or none.
abbrev pub and_then : {B : Type 0} → Option B → List B → List B
and_then none rest = rest
and_then (some y) rest = y ∷ rest

abbrev pub filter_map : {A B : Type 0} → (A → Option B) → List A → List B
filter_map f [] = []
filter_map f (x ∷ xs) = and_then (f x) (filter_map f xs)

abbrev pub or_else : {A : Type 0} → Option A → A → A
or_else none a = a
or_else (some x) _ = x

-- What one outlet's list is sorted by, and the product on it.
pub record MenuEntry : Type 0 where
  pub display_order : ℕ
  pub item : SellableMenuProduct
  pub name : Text

abbrev pub variant_place : ProductVariant → Ordered
variant_place v = record { display_order = v.display_order; name = v.name }

abbrev pub option_place : ModifierOption → Ordered
option_place o = record { display_order = o.display_order; name = o.name }

abbrev pub category_place : Category → Ordered
category_place c = record { display_order = c.display_order; name = c.name }

abbrev pub entry_place : MenuEntry → Ordered
entry_place e = record { display_order = e.display_order; name = e.name }

abbrev pub is_variant_of : Uuid → ProductVariant → Bool
is_variant_of product v = v.product_id == product && is_active v.status

abbrev pub is_option_of : Uuid → ModifierOption → Bool
is_option_of group o = o.group_id == group && is_offered o.availability o.status

abbrev pub is_link_of : Uuid → ProductModifierGroup → Bool
is_link_of product link = link.product_id == product && is_active link.status

abbrev pub is_assigned : Uuid → OutletProduct → Bool
is_assigned outlet a = a.outlet_id == outlet && is_active a.status

abbrev pub sellable_variant : ProductVariant → SellableMenuOption
sellable_variant v = record { id = v.id; name = v.name; price_delta_minor = v.price_delta_minor }

abbrev pub sellable_option : ModifierOption → SellableMenuOption
sellable_option o = record { id = o.id; name = o.name; price_delta_minor = o.price_delta_minor }

abbrev pub is_nil : {A : Type 0} → List A → Bool
is_nil [] = true
is_nil (_ ∷ _) = false

abbrev pub categories_of : CatalogSnapshot → List Category
categories_of s = to_map (λ c. c.id) [] (filter (λ c. is_active c.status) s.categories)

abbrev pub products_of : CatalogSnapshot → List Product
products_of s = to_map (λ p. p.id) [] s.products

abbrev pub groups_of : CatalogSnapshot → List ModifierGroup
groups_of s = to_map (λ g. g.id) [] (filter (λ g. is_active g.status) s.modifier_groups)

abbrev image_id_of : Option ProductImage → Option Uuid
image_id_of none = none
image_id_of (some image) = some image.id

-- `mainImages.get(product.id) ?? null`
abbrev pub main_image : CatalogSnapshot → Uuid → Option Uuid
main_image s product = image_id_of (
    map_get (λ (i : ProductImage). i.product_id)
      (to_map (λ i. i.product_id) []
        (filter (λ i. is_active i.status && i.is_primary) s.product_images))
      product)

abbrev pub sellable_group : ModifierGroup → List ModifierOption → SellableMenuModifierGroup
sellable_group group options = record {
  id = group.id;
  max_selections = min group.max_selections (length options);
  min_selections = group.min_selections;
  name = group.name;
  options = map sellable_option options;
  selection_type = group.selection_type;
}

abbrev pub with_group :
    ModifierGroup
    → List ModifierOption
    → Option (List SellableMenuModifierGroup)
    → Option (List SellableMenuModifierGroup)
with_group group options none = none
with_group group options (some rest) = some (sellable_group group options ∷ rest)

abbrev pub has_category : CatalogSnapshot → Uuid → Bool
has_category s id = any (λ (c : Category). c.id == id) (categories_of s)

abbrev pub sellable_category : Category → SellableMenuCategory
sellable_category c = record { id = c.id; name = c.name }

module _ (locale_compare : Compare Text) where
  abbrev pub in_place : {A : Type 0} → (A → Ordered) → List A → List A
  in_place place = sort (λ x y. by_display_order locale_compare (place x) (place y))

  abbrev pub options_of : CatalogSnapshot → Uuid → List ModifierOption
  options_of s group = in_place option_place (filter (is_option_of group) s.modifier_options)

  abbrev pub variants_of : CatalogSnapshot → Uuid → List ProductVariant
  variants_of s product = in_place variant_place (
      filter (λ v. is_offered v.availability v.status)
        (filter (is_variant_of product) s.product_variants))

  abbrev pub links_of : CatalogSnapshot → Uuid → List ProductModifierGroup
  links_of s product =
      sort (λ x y. sub_ℕ x.display_order y.display_order)
        (filter (is_link_of product) s.product_modifier_groups)

  -- One round of the loop over the links: a group, its options, and what the later rounds add.
  abbrev pub link_step :
      CatalogSnapshot
      → Option ModifierGroup
      → Option (List SellableMenuModifierGroup)
      → Option (List SellableMenuModifierGroup)
  link_step s none rest = rest
  link_step s (some group) rest =
      let options = options_of s group.id in
      if ltb (length options) group.min_selections
      then none
      else if is_nil options
      then rest
      else with_group group options rest

  -- The loop over the links. `none`: a group cannot be satisfied, and the product is left out.
  unfoldable pub sellable_groups :
      CatalogSnapshot → List ProductModifierGroup → Option (List SellableMenuModifierGroup)
  sellable_groups s [] = some []
  sellable_groups s (link ∷ links) =
      link_step s (map_get (λ g. g.id) (groups_of s) link.modifier_group_id)
        (sellable_groups s links)

  abbrev pub sellable_product :
      CatalogSnapshot
      → OutletProduct
      → Product
      → List SellableMenuModifierGroup
      → SellableMenuProduct
  sellable_product s a product groups = record {
    category_id = product.category_id;
    currency = product.currency;
    id = product.id;
    image_id = main_image s product.id;
    modifier_groups = groups;
    name = product.name;
    price_minor = or_else a.price_override_minor product.base_price_minor;
    variants = map sellable_variant (variants_of s product.id);
  }

  abbrev pub entry_of :
      CatalogSnapshot
      → OutletProduct
      → Product
      → Option (List SellableMenuModifierGroup)
      → Option MenuEntry
  entry_of s a product none = none
  entry_of s a product (some groups) = some (record {
    display_order = a.display_order;
    item = sellable_product s a product groups;
    name = product.name;
  })

  -- A product sold by variant, all of whose variants are sold out.
  abbrev pub has_no_variant_left : CatalogSnapshot → Uuid → Bool
  has_no_variant_left s product =
      not (is_nil (filter (is_variant_of product) s.product_variants))
      && is_nil (variants_of s product)

  abbrev pub product_entry : CatalogSnapshot → OutletProduct → Option Product → Option MenuEntry
  product_entry s a none = none
  product_entry s a (some product) =
      if not (is_active product.status && has_category s product.category_id)
      then none
      else if not (is_available (or_else a.availability_override product.availability))
      then none
      else if has_no_variant_left s product.id
      then none
      else entry_of s a product (sellable_groups s (links_of s product.id))

  -- The body of the `flatMap` over the outlet's assignments.
  unfoldable pub menu_entry : CatalogSnapshot → OutletProduct → Option MenuEntry
  unfolding sellable_groups
  menu_entry s a = product_entry s a (map_get (λ p. p.id) (products_of s) a.product_id)

  unfoldable pub menu_entries : CatalogSnapshot → Uuid → List MenuEntry
  unfolding menu_entry
  menu_entries s outlet =
      in_place entry_place
        (filter_map (menu_entry s) (filter (is_assigned outlet) s.outlet_products))

  unfoldable pub build_sellable_menu : CatalogSnapshot → Uuid → SellableMenu
  unfolding menu_entries
  build_sellable_menu s outlet =
      let products = map (λ (e : MenuEntry). e.item) (menu_entries s outlet) in
      let used = map (λ (p : SellableMenuProduct). p.category_id) products in
      record {
        categories =
            map sellable_category
              (in_place category_place (filter (λ c. contains c.id used) (categories_of s)));
        outlet_id = outlet;
        products = products;
      }
