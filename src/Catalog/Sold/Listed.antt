-- ===== src/Catalog/Sold/Listed.antt =====
-- The categories that `buildSellableMenu` lists, and the order of its products.
use mathlib.Core.List.{Perm}
use merchant_operations_plat.Prelude.{
  ◌≡◌, ◌<◌, ◌⊎◌, All, [], ◌∷◌, arith, ◌↔◌, refl, sym, ap, subst, ◌∙◌, true, some, List, map, Uuid,
  Text, filter, contains,
}
use merchant_operations_plat.Prelude.Int.{pos, ◌≤ℤ◌}
use merchant_operations_plat.Contracts.Menu.{
  SellableMenuModifierGroup, SellableMenuProduct, SellableMenuCategory,
}
use merchant_operations_plat.Catalog.{
  CatalogRecordStatus, is_active, Category, Product, OutletProduct, CatalogSnapshot,
}
use merchant_operations_plat.Catalog.Sorting.{Compare, by_display_order, IsOrder, IsSorted}
use merchant_operations_plat.Catalog.Sorting.Sorted.{
  sort-perm, sort-IsSorted, by_display_order-IsOrder, by_place-IsOrder,
}
use merchant_operations_plat.Catalog.SellableMenus.{
  filter_map, is_assigned, sellable_category, has_category, MenuEntry, entry_of, entry_place,
  menu_entry, menu_entries, build_sellable_menu,
}
use merchant_operations_plat.Catalog.Members.{Elem, Elem-filter, Elem-sort, Elem-map, contains_iff}
use merchant_operations_plat.Catalog.Members.Keyed.{filter-IsKeyed, to_map_keyed}
use merchant_operations_plat.Catalog.Sold.{HasKeys}
use merchant_operations_plat.Catalog.Sold.Groups.{is_active_iff}
use merchant_operations_plat.Catalog.Sold.Conditions.{has_category_iff}
use merchant_operations_plat.Catalog.Sold.Entries.{
  menu_entry_iff, Elem-menu_entries, product_entry_lem,
}

module _ (locale_compare : Compare Text) (s : CatalogSnapshot) where
  -- What makes a category appear on the menu: it is in use, and one of its products is sold.
  abbrev pub IsListed : Uuid → SellableMenuCategory → Type 0
  IsListed outlet shown =
      (c : Category) × Elem c s.categories
      × (c.status ≡ CatalogRecordStatus.active)
      × (sellable_category c ≡ shown)
      × ((p : SellableMenuProduct) × Elem p (build_sellable_menu locale_compare s outlet).products
          × (p.category_id ≡ c.id))

module _ (locale_compare : Compare Text) (s : CatalogSnapshot) (keys : HasKeys s) where
  category_iff :
      (outlet : Uuid) (shown : SellableMenuCategory)
      → Elem shown (build_sellable_menu locale_compare s outlet).categories
        ↔ IsListed locale_compare s outlet shown
  unfolding build_sellable_menu
  category_iff outlet shown =
      let products = map (λ (e : MenuEntry). e.item) (menu_entries locale_compare s outlet) in
      let used = map (λ (p : SellableMenuProduct). p.category_id) products in
      let kept =
        filter-IsKeyed (λ (c : Category). c.id) (λ c. is_active c.status) s.categories
          keys.categories_keyed in
      rw (to_map_keyed (λ c. c.id) (filter (λ c. is_active c.status) s.categories) kept) (
        (λ m.
            let (c, m', same) = (Elem-map sellable_category shown _).0 m in
            let (m'', own) =
              (Elem-filter (λ (c : Category). contains c.id used) c
                  (filter (λ c. is_active c.status) s.categories)).0
                ((Elem-sort _ c _).0 m') in
            let (known, active) = (Elem-filter (λ c. is_active c.status) c s.categories).0 m'' in
            let (p, sold, of) =
              (Elem-map (λ (p : SellableMenuProduct). p.category_id) c.id products).0
                ((contains_iff c.id used).0 own) in
            (c, known, (is_active_iff c.status).0 active, same, (p, sold, of))),
        (λ (c, known, active, same, (p, sold, of)). (Elem-map sellable_category shown _).1 (
          c,
          (Elem-sort _ c _).1 (
              (Elem-filter (λ (c : Category). contains c.id used) c
                  (filter (λ c. is_active c.status) s.categories)).1
                (
                  (Elem-filter (λ c. is_active c.status) c s.categories).1
                      (known, (is_active_iff c.status).1 active),
                  (contains_iff c.id used).1 (
                      (Elem-map (λ (p : SellableMenuProduct). p.category_id) c.id products).1
                        (p, sold, of)),
                )),
          same,
        )),
      )

  entry_category :
      (a : OutletProduct) (p : Product) (groups : List SellableMenuModifierGroup) (e : MenuEntry)
      → entry_of locale_compare s a p (some groups) ≡ some e
      → p.category_id ≡ e.item.category_id
  entry_category a p groups e h = cc

  sold_category :
      (outlet : Uuid) (item : SellableMenuProduct)
      → Elem item (build_sellable_menu locale_compare s outlet).products
      → has_category s item.category_id ≡ true
  unfolding build_sellable_menu
  sold_category outlet item m =
      let (e, m', at) = (Elem-map (λ (e : MenuEntry). e.item) item _).0 m in
      let (a, assigned, own, made) = (Elem-menu_entries locale_compare s outlet e).0 m' in
      let (p, known, same, passes, built) = (menu_entry_iff locale_compare s keys a e).0 made in
      let category =
        entry_category a p passes.groups e built
        ∙ ap (λ (p : SellableMenuProduct). p.category_id) at in
      subst (λ id. has_category s id ≡ true) category passes.categorised

  -- Where the rows have different identifiers, the menu lists a category exactly when it is in use
  -- and the menu sells a product in it, and the category of every product on it is listed.
  pub categories_iff :
      (outlet : Uuid)
      → ((shown : SellableMenuCategory)
          → Elem shown (build_sellable_menu locale_compare s outlet).categories
            ↔ IsListed locale_compare s outlet shown)
        × ((item : SellableMenuProduct)
            → Elem item (build_sellable_menu locale_compare s outlet).products
            → (shown : SellableMenuCategory) × Elem shown
                (build_sellable_menu locale_compare s outlet).categories
              × (shown.id ≡ item.category_id))
  categories_iff outlet = (
    category_iff outlet,
    (λ item m.
        let (c, known, same, active) =
          (has_category_iff s keys item.category_id).0 (sold_category outlet item m) in
        (
          sellable_category c,
          (category_iff outlet (sellable_category c)).1
              (c, known, active, refl, (item, m, sym same)),
          same,
        )),
  )

module _ (locale_compare : Compare Text) (s : CatalogSnapshot) where
  -- The one entry stands at an earlier place than the other, or at the same place with a name that
  -- comes no later.
  abbrev pub ComesFirst : MenuEntry → MenuEntry → Type 0
  ComesFirst x y =
      (x.display_order < y.display_order)
      ⊎ (x.display_order ≡ y.display_order) × (locale_compare x.name y.name ≤ℤ pos 0)

  -- Each entry comes before all that follow it.
  abbrev pub AreInPlace : List MenuEntry → Type 0
  AreInPlace [] = Unit
  AreInPlace (x ∷ xs) = All (ComesFirst x) xs × AreInPlace xs

  ComesFirst-lem :
      (x y : MenuEntry)
      → by_display_order locale_compare (entry_place x) (entry_place y) ≤ℤ pos 0
      → ComesFirst x y
  ComesFirst-lem x y h = ground arith

  All-ComesFirst :
      (x : MenuEntry) (ys : List MenuEntry)
      → All (λ y. by_display_order locale_compare (entry_place x) (entry_place y) ≤ℤ pos 0) ys
      → All (ComesFirst x) ys
  All-ComesFirst x [] h = tt
  All-ComesFirst x (y ∷ ys) (h, hs) = (ComesFirst-lem x y h, All-ComesFirst x ys hs)

  IsSorted-AreInPlace :
      (xs : List MenuEntry)
      → IsSorted (λ x y. by_display_order locale_compare (entry_place x) (entry_place y)) xs
      → AreInPlace xs
  IsSorted-AreInPlace [] h = tt
  IsSorted-AreInPlace (x ∷ xs) (h, hs) = (All-ComesFirst x xs h, IsSorted-AreInPlace xs hs)

  -- An entry is made of an assignment to the outlet, at the place that the assignment gives it, with
  -- the name of its product.
  abbrev pub IsPlaced : Uuid → MenuEntry → Type 0
  IsPlaced outlet e =
      (a : OutletProduct) × Elem a s.outlet_products
      × (is_assigned outlet a ≡ true)
      × (menu_entry locale_compare s a ≡ some e)
      × (e.display_order ≡ a.display_order)
      × (e.name ≡ e.item.name)

  entries-IsPlaced :
      (outlet : Uuid) (e : MenuEntry)
      → Elem e (menu_entries locale_compare s outlet)
      → IsPlaced outlet e
  unfolding menu_entry
  entries-IsPlaced outlet e m =
      let (a, known, own, made) = (Elem-menu_entries locale_compare s outlet e).0 m in
      let (p, found, passes, built) = product_entry_lem locale_compare s a _ e made in
      (a, known, own, made, cc, cc)

module _ (locale_compare : Compare Text) (o : IsOrder locale_compare) (s : CatalogSnapshot) where
  -- Where the runtime's comparison of names is an order, the products stand in the order of the
  -- display orders that the assignments to the outlet give them, by name where these are the same,
  -- and no assignment is lost or repeated.
  pub products-IsSorted :
      (outlet : Uuid)
      → (entries : List MenuEntry) × ((build_sellable_menu locale_compare s outlet).products
          ≡ map (λ (e : MenuEntry). e.item) entries)
        × AreInPlace locale_compare s entries
        × ((e : MenuEntry) → Elem e entries → IsPlaced locale_compare s outlet e)
        × Perm entries (
            filter_map
              (menu_entry locale_compare s)
              (filter (is_assigned outlet) s.outlet_products))
  unfolding build_sellable_menu menu_entries
  products-IsSorted outlet = (
    menu_entries locale_compare s outlet,
    refl,
    IsSorted-AreInPlace locale_compare s _ (
        sort-IsSorted _
          (by_place-IsOrder entry_place (by_display_order locale_compare)
            (by_display_order-IsOrder locale_compare o))
          (filter_map (menu_entry locale_compare s)
            (filter (is_assigned outlet) s.outlet_products))),
    entries-IsPlaced locale_compare s outlet,
    sort-perm _
        (filter_map (menu_entry locale_compare s) (filter (is_assigned outlet) s.outlet_products)),
  )
