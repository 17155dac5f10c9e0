-- ===== src/Catalog/Sold/Products.antt =====
-- `buildSellableMenu` answers exactly the products that the outlet sells.
use merchant_operations_plat.Prelude.{◌≤◌, ◌≡◌, ◌↔◌, refl, sym, ap, subst, ◌∙◌, map, Uuid, Text}
use merchant_operations_plat.Contracts.Menu.{SellableMenuProduct}
use merchant_operations_plat.Database.Tables.{count_where}
use merchant_operations_plat.Catalog.{ModifierGroup, CatalogSnapshot}
use merchant_operations_plat.Catalog.Sorting.{Compare}
use merchant_operations_plat.Catalog.SellableMenus.{
  is_option_of, MenuEntry, menu_entries, build_sellable_menu, sellable_product,
}
use merchant_operations_plat.Catalog.Members.{Elem, Elem-map}
use merchant_operations_plat.Catalog.Sold.{HasKeys, HasVariantLeft, IsLinked, Sells}
use merchant_operations_plat.Catalog.Sold.Groups.{is_active_iff}
use merchant_operations_plat.Catalog.Sold.Conditions.{
  is_assigned_iff, is_available_iff, has_no_variant_left_iff, has_category_iff,
}
use merchant_operations_plat.Catalog.Sold.Entries.{
  Passes, groups_satisfiable_iff, menu_entry_iff, Elem-menu_entries,
}

module _ (locale_compare : Compare Text) (s : CatalogSnapshot) (keys : HasKeys s) where
  sold-Sells :
      (outlet : Uuid) (e : MenuEntry)
      → Elem e (menu_entries locale_compare s outlet)
      → Sells s outlet e.item.id
  sold-Sells outlet e m =
      let (a, assigned, own, made) = (Elem-menu_entries locale_compare s outlet e).0 m in
      let (p, known, same, passes, built) = (menu_entry_iff locale_compare s keys a e).0 made in
      let (at_outlet, active) = (is_assigned_iff outlet a).0 own in
      let (c, category, of, in_use) =
        (has_category_iff s keys p.category_id).0 passes.categorised in
      let item : p.id ≡ e.item.id = cc in
      record {
        assignment = a;
        assigned = assigned;
        at_outlet = at_outlet;
        assignment_active = active;
        of_product = sym same ∙ item;
        product = p;
        product_known = known;
        product_id = item;
        product_active = (is_active_iff p.status).0 passes.active;
        category = c;
        category_known = category;
        category_id = of;
        category_active = in_use;
        offered = (is_available_iff _).0 passes.offered;
        variant_left =
            subst (HasVariantLeft s) item
              ((has_no_variant_left_iff locale_compare s p.id).0 passes.left);
        groups_satisfiable =
            subst
              (λ id.
                (g : ModifierGroup)
                → IsLinked s id g
                → g.min_selections ≤ count_where (is_option_of g.id) s.modifier_options)
              item
              ((groups_satisfiable_iff locale_compare s keys p.id).0
                (passes.groups, passes.satisfied));
      }

  Sells-sold :
      (outlet id : Uuid)
      → (sells : Sells s outlet id)
      → (e : MenuEntry) × Elem e (menu_entries locale_compare s outlet) × (e.item.id ≡ id)
  Sells-sold outlet id sells =
      let a = sells.assignment in
      let p = sells.product in
      let at : p.id ≡ id = sells.product_id in
      let (groups, satisfied) = (groups_satisfiable_iff locale_compare s keys p.id).1 (
        subst
          (λ id.
            (g : ModifierGroup)
            → IsLinked s id g
            → g.min_selections ≤ count_where (is_option_of g.id) s.modifier_options)
          (sym at) sells.groups_satisfiable) in
      let passes : Passes locale_compare s a p = record {
        active = (is_active_iff p.status).1 sells.product_active;
        categorised =
            (has_category_iff s keys p.category_id).1
              (sells.category, sells.category_known, sells.category_id, sells.category_active);
        offered = (is_available_iff _).1 sells.offered;
        left =
            (has_no_variant_left_iff locale_compare s p.id).1
              (subst (HasVariantLeft s) (sym at) sells.variant_left);
        groups = groups;
        satisfied = satisfied;
      } in
      let e : MenuEntry = record {
        display_order = a.display_order;
        item = sellable_product locale_compare s a p groups;
        name = p.name;
      } in
      (
        e,
        (Elem-menu_entries locale_compare s outlet e).1 (
          a,
          sells.assigned,
          (is_assigned_iff outlet a).1 (sells.at_outlet, sells.assignment_active),
          (menu_entry_iff locale_compare s keys a e).1
              (p, sells.product_known, at ∙ sym sells.of_product, passes, refl),
        ),
        at,
      )

  -- Where the rows have different identifiers, the menu built for an outlet holds a product exactly
  -- when an assignment in use puts the product at the outlet, the product and its category are in
  -- use, it is available there, a variant is left if it is sold by variant, and every group in use
  -- that a link in use gives it has as many offered options as it asks for.
  pub products_iff :
      (outlet id : Uuid)
      → Elem id (
          map
            (λ (p : SellableMenuProduct). p.id)
            (build_sellable_menu locale_compare s outlet).products)
        ↔ Sells s outlet id
  unfolding build_sellable_menu
  products_iff outlet id = (
    (λ m.
        let (p, m', same) = (Elem-map (λ (p : SellableMenuProduct). p.id) id _).0 m in
        let (e, m'', item) =
          (Elem-map (λ (e : MenuEntry). e.item) p (menu_entries locale_compare s outlet)).0 m' in
        subst (Sells s outlet) (ap (λ (p : SellableMenuProduct). p.id) item ∙ same)
          (sold-Sells outlet e m'')),
    (λ sells.
        let (e, m, same) = Sells-sold outlet id sells in
        (Elem-map (λ (p : SellableMenuProduct). p.id) id _).1
          (e.item, (Elem-map (λ (e : MenuEntry). e.item) e.item _).1 (e, m, refl), same)),
  )
