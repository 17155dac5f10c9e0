-- ===== src/Catalog/Tests.antt =====
-- The menu theorems on a tenant with one category, a coffee with a choice of milk, and a tea that is
-- sold out at the outlet.
use mathlib.Core.List.{Perm}
use merchant_operations_plat.Prelude.{
  ◌≡◌, ◌⊎◌, ◌↔◌, refl, arith, true, none, some, List, [], ◌∷◌, map, Text, All, ok, filter,
}
use merchant_operations_plat.Prelude.Int.{pos, ◌≤ℤ◌, sub_ℕ, ◌*ℤ◌, ◌+ℤ◌}
use merchant_operations_plat.Contracts.Menu.{
  single, SellableMenuProduct, SellableMenuCategory, SellableMenu,
}
use merchant_operations_plat.OrderIntake.Pricing.{RequestedLine, PricedOrder, price_order_lines}
use merchant_operations_plat.Catalog.{
  active, available, sold_out, Category, Product, ModifierGroup, ModifierOption,
  ProductModifierGroup, OutletProduct, CatalogSnapshot,
}
use merchant_operations_plat.Catalog.Sorting.{Compare, IsOrder, sort}
use merchant_operations_plat.Catalog.SellableMenus.{
  filter_map, is_assigned, MenuEntry, menu_entry, build_sellable_menu, to_map,
}
use merchant_operations_plat.Catalog.Members.{Elem}
use merchant_operations_plat.Catalog.Queries.{CatalogTables, snapshot_of, get_sellable_menu}
use merchant_operations_plat.Catalog.Sold.{HasKeys, Sells}
use merchant_operations_plat.Catalog.Sold.Products.{products_iff}
use merchant_operations_plat.Catalog.Sold.Listed.{
  IsListed, categories_iff, products-IsSorted, AreInPlace, IsPlaced,
}
use merchant_operations_plat.Catalog.Ordering.{as_product, IsOpen, priced_order-Sells}

abbrev drinks : Category
drinks = record {
  display_order = 0;
  id = 10;
  name = 100;
  slug = 100;
  status = active;
  tenant_id = 1;
}

abbrev coffee : Product
coffee = record {
  availability = available;
  base_price_minor = pos 200;
  category_id = 10;
  currency = 7;
  description = none;
  id = 20;
  name = 101;
  slug = 101;
  status = active;
  tenant_id = 1;
}

abbrev tea : Product
tea = record coffee { id = 21; name = 102; slug = 102 }

abbrev milk : ModifierGroup
milk = record {
  display_order = 0;
  id = 30;
  max_selections = 3;
  min_selections = 1;
  name = 103;
  selection_type = single;
  status = active;
  tenant_id = 1;
}

abbrev oat : ModifierOption
oat = record {
  availability = available;
  display_order = 0;
  group_id = 30;
  id = 40;
  name = 104;
  price_delta_minor = pos 50;
  status = active;
  tenant_id = 1;
}

abbrev milk_of_coffee : ProductModifierGroup
milk_of_coffee = record {
  display_order = 0;
  id = 50;
  modifier_group_id = 30;
  product_id = 20;
  status = active;
  tenant_id = 1;
}

abbrev coffee_here : OutletProduct
coffee_here = record {
  availability_override = none;
  display_order = 1;
  id = 60;
  outlet_id = 2;
  price_override_minor = some (pos 250);
  product_id = 20;
  status = active;
  tenant_id = 1;
}

abbrev tea_here : OutletProduct
tea_here = record coffee_here {
  availability_override = some sold_out;
  display_order = 0;
  id = 61;
  product_id = 21;
}

abbrev rows : CatalogSnapshot
rows = record {
  categories = drinks ∷ [];
  modifier_groups = milk ∷ [];
  modifier_options = oat ∷ [];
  outlet_products = tea_here ∷ coffee_here ∷ [];
  product_images = [];
  product_modifier_groups = milk_of_coffee ∷ [];
  product_variants = [];
  products = coffee ∷ tea ∷ [];
}

abbrev by_code : Compare Text
by_code = sub_ℕ

abbrev menu : SellableMenu
menu = build_sellable_menu by_code rows 2

abbrev shown_coffee : SellableMenuProduct
shown_coffee = record {
  category_id = 10;
  currency = 7;
  id = 20;
  image_id = none;
  modifier_groups =
      record {
        id = 30;
        max_selections = 1;
        min_selections = 1;
        name = 103;
        options = record { id = 40; name = 104; price_delta_minor = pos 50 } ∷ [];
        selection_type = single;
      }
      ∷ [];
  name = 101;
  price_minor = pos 250;
  variants = [];
}

menu_lem : menu.products ≡ shown_coffee ∷ []
unfolding build_sellable_menu sort to_map
menu_lem = refl

rows-HasKeys : HasKeys rows
rows-HasKeys = record {
  categories_keyed = (refl, tt);
  groups_keyed = (refl, tt);
  products_keyed = (refl, (refl, tt));
}

products_iff_example :
    Elem 20 (map (λ (p : SellableMenuProduct). p.id) menu.products) ↔ Sells rows 2 20
products_iff_example = products_iff by_code rows rows-HasKeys 2 20

categories_iff_example :
    ((shown : SellableMenuCategory) → Elem shown menu.categories ↔ IsListed by_code rows 2 shown)
    × ((item : SellableMenuProduct)
        → Elem item menu.products
        → (shown : SellableMenuCategory) × Elem shown menu.categories
          × (shown.id ≡ item.category_id))
categories_iff_example = categories_iff by_code rows rows-HasKeys 2

by_code_total : (x y : Text) → (by_code x y ≤ℤ pos 0) ⊎ (by_code y x ≤ℤ pos 0)
by_code_total x y = ground arith

by_code_transitive :
    (x y z : Text) → by_code x y ≤ℤ pos 0 → by_code y z ≤ℤ pos 0 → by_code x z ≤ℤ pos 0
by_code_transitive x y z h k = ground arith

by_code-IsOrder : IsOrder by_code
by_code-IsOrder = record { total = by_code_total; transitive = by_code_transitive }

products-IsSorted_example :
    (entries : List MenuEntry) × (menu.products ≡ map (λ (e : MenuEntry). e.item) entries)
    × AreInPlace by_code rows entries
    × ((e : MenuEntry) → Elem e entries → IsPlaced by_code rows 2 e)
    × Perm entries
        (filter_map (menu_entry by_code rows) (filter (is_assigned 2) rows.outlet_products))
products-IsSorted_example = products-IsSorted by_code by_code-IsOrder rows 2

abbrev tables : CatalogTables
tables = record {
  tenants = record { currency = 7; id = 1; status = active } ∷ [];
  outlets = record { id = 2; status = active; tenant_id = 1 } ∷ [];
  rows = rows;
}

abbrev one_oat_coffee : RequestedLine
one_oat_coffee = record {
  modifier_option_ids = 40 ∷ [];
  note = none;
  product_id = 20;
  quantity = 1;
  variant_id = none;
}

abbrev order : PricedOrder
order = record {
  currency = 7;
  lines =
      record {
        line_total_minor = pos 300;
        modifiers = record { group_name = 103; option_name = 104; price_delta_minor = pos 50 } ∷ [];
        name = 101;
        note = none;
        product_id = 20;
        quantity = 1;
        unit_price_minor = pos 300;
        variant_name = none;
      }
      ∷ [];
  subtotal_minor = pos 300;
}

menu-got : get_sellable_menu by_code (λ m. true) tables 1 2 ≡ ok menu
unfolding get_sellable_menu
menu-got = refl

order-priced : price_order_lines (map as_product menu.products) (one_oat_coffee ∷ []) ≡ ok order
unfolding price_order_lines ◌*ℤ◌ ◌+ℤ◌
order-priced = rw menu_lem refl

priced_order-Sells_example :
    IsOpen tables 1 2
    × All (λ (l : RequestedLine). Sells (snapshot_of tables 1) 2 l.product_id) (one_oat_coffee ∷ [])
priced_order-Sells_example =
    priced_order-Sells by_code (λ m. true) tables 1 2 menu one_oat_coffee [] order rows-HasKeys
      menu-got order-priced
