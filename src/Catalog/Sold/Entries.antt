-- ===== src/Catalog/Sold/Entries.antt =====
-- The body of the `flatMap` of `buildSellableMenu`: what it takes for an assignment to make an entry.
use merchant_operations_plat.Prelude.{
  ◌≤◌, ◌≡◌, ◌↔◌, inl, inr, refl, sym, subst, ◌∙◌, true, false, Option, none, some, List, Uuid, Text,
  arith, filter, Option-cases,
}
use merchant_operations_plat.Contracts.Menu.{SellableMenuModifierGroup}
use merchant_operations_plat.Database.Tables.{count_where}
use merchant_operations_plat.Catalog.{
  is_active, is_available, Product, ModifierGroup, OutletProduct, CatalogSnapshot,
}
use merchant_operations_plat.Catalog.Sorting.{Compare}
use merchant_operations_plat.Catalog.SellableMenus.{
  map_get, links_of, is_option_of, is_link_of, is_assigned, or_else, has_category,
  has_no_variant_left, sellable_groups, MenuEntry, entry_of, product_entry, menu_entry,
  menu_entries,
}
use merchant_operations_plat.Catalog.Members.{
  Elem, Elem-filter, Elem-sort, Elem-filter_map, find-key,
}
use merchant_operations_plat.Catalog.Members.Keyed.{to_map_keyed}
use merchant_operations_plat.Catalog.Sold.{HasKeys, IsLinked}
use merchant_operations_plat.Catalog.Sold.Groups.{
  length-options_of, IsSatisfiable, found, sellable_groups_iff,
}
use merchant_operations_plat.Catalog.Sold.Conditions.{is_link_of_iff, found-group}

module _ (locale_compare : Compare Text) (s : CatalogSnapshot) where
  -- The tests that a product passes, and the groups that it gets.
  pub record Passes (a : OutletProduct) (p : Product) : Type 0 where
    pub active : is_active p.status ≡ true
    pub categorised : has_category s p.category_id ≡ true
    pub offered : is_available (or_else a.availability_override p.availability) ≡ true
    pub left : has_no_variant_left locale_compare s p.id ≡ false
    pub groups : List SellableMenuModifierGroup
    pub satisfied : sellable_groups locale_compare s (links_of locale_compare s p.id) ≡ some groups

  -- An assignment's entry, where its product passes the tests.
  pub product_entry_lem :
      (a : OutletProduct) (o : Option Product) (e : MenuEntry)
      → product_entry locale_compare s a o ≡ some e
      → (p : Product) × (o ≡ some p)
        × (passes : Passes a p) × (entry_of locale_compare s a p (some passes.groups) ≡ some e)
  product_entry_lem a none e h = absurd (cc)
  product_entry_lem a (some p) e h =
      elim (Option-cases (sellable_groups locale_compare s (links_of locale_compare s p.id))) [
        | inl failed ↦ absurd (ground arith)
        | inr (gs, done) ↦ (
          p,
          refl,
          record {
            active = ground arith;
            categorised = ground arith;
            offered = ground arith;
            left = ground arith;
            groups = gs;
            satisfied = done;
          },
          ground arith,
        )
      ]

  pub product_entry-Passes :
      (a : OutletProduct) (p : Product) (passes : Passes a p)
      → product_entry locale_compare s a (some p)
        ≡ entry_of locale_compare s a p (some passes.groups)
  product_entry-Passes a p passes =
      ground
        (arith, passes.active, passes.categorised, passes.offered, passes.left, passes.satisfied)

  pub Elem-menu_entries :
      (outlet : Uuid) (e : MenuEntry)
      → Elem e (menu_entries locale_compare s outlet) ↔ (
          (a : OutletProduct) × Elem a s.outlet_products
          × (is_assigned outlet a ≡ true)
          × (menu_entry locale_compare s a ≡ some e))
  unfolding menu_entries
  Elem-menu_entries outlet e = (
    (λ m.
        let (a, m', made) =
          (Elem-filter_map (menu_entry locale_compare s) e
              (filter (is_assigned outlet) s.outlet_products)).0
            ((Elem-sort _ e _).0 m) in
        let (known, own) = (Elem-filter (is_assigned outlet) a s.outlet_products).0 m' in
        (a, known, own, made)),
    (λ (a, known, own, made). (Elem-sort _ e _).1 (
        (Elem-filter_map (menu_entry locale_compare s) e
            (filter (is_assigned outlet) s.outlet_products)).1
          (a, (Elem-filter (is_assigned outlet) a s.outlet_products).1 (known, own), made))),
  )

module _ (locale_compare : Compare Text) (s : CatalogSnapshot) (keys : HasKeys s) where
  pub groups_satisfiable_iff :
      (id : Uuid)
      → ((gs : List SellableMenuModifierGroup) × (sellable_groups locale_compare s
              (links_of locale_compare s id)
            ≡ some gs))
        ↔ ((g : ModifierGroup)
            → IsLinked s id g
            → g.min_selections ≤ count_where (is_option_of g.id) s.modifier_options)
  groups_satisfiable_iff id =
      let loop = sellable_groups_iff locale_compare s (links_of locale_compare s id) in
      (
        (λ h g l.
            let m = (Elem-sort _ l.link _).1 (
              (Elem-filter (is_link_of id) l.link s.product_modifier_groups).1
                (l.link_known, (is_link_of_iff id l.link).1 (l.link_of, l.link_active))) in
            let at = (found-group s keys l.link g).1 (l.group_known, l.group_of, l.group_active) in
            subst (λ n. g.min_selections ≤ n) (length-options_of locale_compare s g.id)
              (subst (IsSatisfiable locale_compare s) at (loop.0 h l.link m))),
        (λ h. loop.1 (λ link m. elim (Option-cases (found locale_compare s link)) [
          | inl missing ↦ subst (IsSatisfiable locale_compare s) (sym missing) tt
          | inr (g, at) ↦
              let (known, own) =
                (Elem-filter (is_link_of id) link s.product_modifier_groups).0
                  ((Elem-sort _ link _).0 m) in
              let (of, active) = (is_link_of_iff id link).0 own in
              let (group_known, group_of, group_active) = (found-group s keys link g).0 at in
              subst (IsSatisfiable locale_compare s) (sym at) (
                subst (λ n. g.min_selections ≤ n) (sym (length-options_of locale_compare s g.id))
                  (h g (record {
                    link = link;
                    link_known = known;
                    link_of = of;
                    link_active = active;
                    group_known = group_known;
                    group_of = group_of;
                    group_active = group_active;
                  })))
        ])),
      )

  -- The entry of an assignment, from the rows that it takes.
  pub menu_entry_iff :
      (a : OutletProduct) (e : MenuEntry)
      → (menu_entry locale_compare s a ≡ some e) ↔ (
          (p : Product) × Elem p s.products
          × (p.id ≡ a.product_id)
          × (passes : Passes locale_compare s a p) × (entry_of locale_compare s a p
                (some passes.groups)
              ≡ some e))
  unfolding menu_entry
  menu_entry_iff a e = rw (to_map_keyed (λ p. p.id) s.products keys.products_keyed) (
    (λ h.
        let (p, at, passes, made) =
          product_entry_lem locale_compare s a (map_get (λ p. p.id) s.products a.product_id) e h in
        let (known, same) =
          (find-key (λ (p : Product). p.id) s.products a.product_id p keys.products_keyed).0 at in
        (p, known, same, passes, made)),
    (λ (p, known, same, passes, made).
        let at =
          (find-key (λ (p : Product). p.id) s.products a.product_id p keys.products_keyed).1
            (known, same) in
        rw at (product_entry-Passes locale_compare s a p passes ∙ made)),
  )
