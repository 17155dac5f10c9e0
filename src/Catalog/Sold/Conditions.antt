-- ===== src/Catalog/Sold/Conditions.antt =====
-- The guards of `buildSellableMenu` on one product, as conditions on the catalog's rows.
use merchant_operations_plat.Prelude.{
  ◌≡◌, ◌↔◌, inl, inr, subst, true, false, some, Uuid, Text, arith, filter, ◌==◌, ==_iff,
}
use merchant_operations_plat.Catalog.{
  CatalogRecordStatus, ProductAvailability, is_active, is_available, is_offered, Category,
  ProductVariant, ModifierGroup, ProductModifierGroup, OutletProduct, CatalogSnapshot,
}
use merchant_operations_plat.Catalog.Sorting.{Compare}
use merchant_operations_plat.Catalog.SellableMenus.{
  map_get, groups_of, variants_of, is_link_of, is_variant_of, is_assigned, has_category,
  has_no_variant_left,
}
use merchant_operations_plat.Catalog.Members.{Elem, Elem-filter, Elem-sort, any_iff, find-key}
use merchant_operations_plat.Catalog.Members.Keyed.{filter-IsKeyed, to_map_keyed}
use merchant_operations_plat.Catalog.Sold.{HasKeys, HasVariantLeft}
use merchant_operations_plat.Catalog.Sold.Groups.{is_nil-cases, is_active_iff}

is_variant_of_iff :
    (id : Uuid) (v : ProductVariant)
    → (is_variant_of id v ≡ true) ↔ ((v.product_id ≡ id) × (v.status ≡ CatalogRecordStatus.active))
is_variant_of_iff id v = ground arith

pub is_offered_iff :
    (a : ProductAvailability) (status : CatalogRecordStatus)
    → (is_offered a status ≡ true)
      ↔ ((status ≡ CatalogRecordStatus.active) × (a ≡ ProductAvailability.available))
is_offered_iff a status = ground arith

pub is_link_of_iff :
    (id : Uuid) (l : ProductModifierGroup)
    → (is_link_of id l ≡ true) ↔ ((l.product_id ≡ id) × (l.status ≡ CatalogRecordStatus.active))
is_link_of_iff id l = ground arith

pub is_assigned_iff :
    (outlet : Uuid) (a : OutletProduct)
    → (is_assigned outlet a ≡ true)
      ↔ ((a.outlet_id ≡ outlet) × (a.status ≡ CatalogRecordStatus.active))
is_assigned_iff outlet a = ground arith

pub is_available_iff :
    (a : ProductAvailability) → (is_available a ≡ true) ↔ (a ≡ ProductAvailability.available)
is_available_iff a = ground arith

module _ (locale_compare : Compare Text) (s : CatalogSnapshot) where
  -- The variants that a menu offers are those in use and not sold out.
  pub Elem-variants_of :
      (id : Uuid) (v : ProductVariant)
      → Elem v (variants_of locale_compare s id) ↔ (
          Elem v s.product_variants
          × (v.product_id ≡ id)
          × (v.status ≡ CatalogRecordStatus.active)
          × (v.availability ≡ ProductAvailability.available))
  Elem-variants_of id v = (
    (λ m.
        let (m', offered) =
          (Elem-filter (λ w. is_offered w.availability w.status) v
              (filter (is_variant_of id) s.product_variants)).0
            ((Elem-sort _ v _).0 m) in
        let (known, own) = (Elem-filter (is_variant_of id) v s.product_variants).0 m' in
        let (of, active) = (is_variant_of_iff id v).0 own in
        (known, of, active, ((is_offered_iff v.availability v.status).0 offered).1)),
    (λ (known, of, active, available). (Elem-sort _ v _).1 (
        (Elem-filter (λ w. is_offered w.availability w.status) v
            (filter (is_variant_of id) s.product_variants)).1
          (
            (Elem-filter (is_variant_of id) v s.product_variants).1
                (known, (is_variant_of_iff id v).1 (of, active)),
            (is_offered_iff v.availability v.status).1 (active, available),
          ))),
  )

  pub has_no_variant_left_iff :
      (id : Uuid) → (has_no_variant_left locale_compare s id ≡ false) ↔ HasVariantLeft s id
  has_no_variant_left_iff id = elim (is_nil-cases (filter (is_variant_of id) s.product_variants)) [
    | inl (e, empty) ↦ (
      (λ h. inl (λ v known of active. subst (Elem v) empty (
          (Elem-filter (is_variant_of id) v s.product_variants).1
            (known, (is_variant_of_iff id v).1 (of, active))))),
      (λ h. ground arith),
    )
    | inr (e, (w, known)) ↦ elim (is_nil-cases (variants_of locale_compare s id)) [
      | inl (none_left, empty) ↦ (
        (λ h. absurd (ground arith)),
        (λ h. absurd (elim h [
          | inl never ↦
              let (known', own) = (Elem-filter (is_variant_of id) w s.product_variants).0 known in
              let (of, active) = (is_variant_of_iff id w).0 own in never w known' of active
          | inr (v, known', of, active, available) ↦
              subst (Elem v) empty ((Elem-variants_of id v).1 (known', of, active, available))
        ])),
      )
      | inr (some_left, (v, m)) ↦ (
        (λ h.
            let (known', of, active, available) = (Elem-variants_of id v).0 m in
            inr (v, known', of, active, available)),
        (λ h. ground arith),
      )
    ]
  ]

module _ (s : CatalogSnapshot) (keys : HasKeys s) where
  pub has_category_iff :
      (id : Uuid)
      → (has_category s id ≡ true) ↔ (
          (c : Category) × Elem c s.categories
          × (c.id ≡ id)
          × (c.status ≡ CatalogRecordStatus.active))
  has_category_iff id =
      rw
        (to_map_keyed (λ c. c.id) (filter (λ c. is_active c.status) s.categories)
          (filter-IsKeyed (λ c. c.id) (λ c. is_active c.status) s.categories keys.categories_keyed))
        (
          (λ h.
              let (c, m, same) =
                (any_iff (λ (c : Category). c.id == id)
                    (filter (λ c. is_active c.status) s.categories)).0
                  h in
              let (known, active) = (Elem-filter (λ c. is_active c.status) c s.categories).0 m in
              (c, known, (==_iff c.id id).0 same, (is_active_iff c.status).0 active)),
          (λ (c, known, same, active).
              (any_iff (λ (c : Category). c.id == id)
                  (filter (λ c. is_active c.status) s.categories)).1
                (
                  c,
                  (Elem-filter (λ c. is_active c.status) c s.categories).1
                      (known, (is_active_iff c.status).1 active),
                  (==_iff c.id id).1 same,
                )),
        )

  pub found-group :
      (link : ProductModifierGroup) (g : ModifierGroup)
      → (map_get (λ g. g.id) (groups_of s) link.modifier_group_id ≡ some g) ↔ (
          Elem g s.modifier_groups
          × (g.id ≡ link.modifier_group_id)
          × (g.status ≡ CatalogRecordStatus.active))
  found-group link g =
      let keyed =
        filter-IsKeyed (λ (g : ModifierGroup). g.id) (λ g. is_active g.status) s.modifier_groups
          keys.groups_keyed in
      let here =
        find-key (λ (g : ModifierGroup). g.id) (filter (λ g. is_active g.status) s.modifier_groups)
          link.modifier_group_id g keyed in
      rw (to_map_keyed (λ g. g.id) (filter (λ g. is_active g.status) s.modifier_groups) keyed) (
        (λ h.
            let (m, same) = here.0 h in
            let (known, active) = (Elem-filter (λ g. is_active g.status) g s.modifier_groups).0 m in
            (known, same, (is_active_iff g.status).0 active)),
        (λ (known, same, active). here.1 (
          (Elem-filter (λ g. is_active g.status) g s.modifier_groups).1
              (known, (is_active_iff g.status).1 active),
          same,
        )),
      )
