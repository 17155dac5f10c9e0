-- ===== src/Catalog/Sold/Contents.antt =====
-- What `buildSellableMenu` writes of a product's groups and variants.
use merchant_operations_plat.Prelude.{
  ◌≤◌, ◌≡◌, ◌⊎◌, inl, inr, refl, sym, subst, true, false, Option, none, some, List, [], ◌∷◌, map,
  Uuid, Text, arith, length, Bool-cases,
}
use merchant_operations_plat.Contracts.Menu.{
  SellableMenuOption, SellableMenuModifierGroup, SellableMenuProduct,
}
use merchant_operations_plat.Catalog.{
  CatalogRecordStatus, ProductAvailability, is_offered, Product, ProductVariant, ModifierGroup,
  ModifierOption, ProductModifierGroup, OutletProduct, CatalogSnapshot,
}
use merchant_operations_plat.Catalog.Sorting.{Compare}
use merchant_operations_plat.Catalog.SellableMenus.{
  options_of, is_option_of, is_nil, or_else, sellable_group, sellable_option, sellable_variant,
  link_step, sellable_groups,
}
use merchant_operations_plat.Catalog.Members.{Elem, Elem-filter, Elem-sort, Elem-map}
use merchant_operations_plat.Catalog.Sold.Groups.{found}
use merchant_operations_plat.Catalog.Sold.Conditions.{is_offered_iff}

-- An option on the menu is one of the group's that is in use and not sold out, at its surcharge.
abbrev pub IsOfferedOption : CatalogSnapshot → Uuid → SellableMenuOption → Type 0
IsOfferedOption s group shown =
    (o : ModifierOption) × Elem o s.modifier_options
    × (o.group_id ≡ group)
    × (o.status ≡ CatalogRecordStatus.active)
    × (o.availability ≡ ProductAvailability.available)
    × (sellable_option o ≡ shown)

abbrev pub IsOfferedVariant : CatalogSnapshot → Uuid → SellableMenuOption → Type 0
IsOfferedVariant s product shown =
    (v : ProductVariant) × Elem v s.product_variants
    × (v.product_id ≡ product)
    × (v.status ≡ CatalogRecordStatus.active)
    × (v.availability ≡ ProductAvailability.available)
    × (sellable_variant v ≡ shown)

-- A group on the menu: there is something to choose, and enough of it; no more can be asked for
-- than there is, and all of it is on offer.
pub record IsChoosable (s : CatalogSnapshot) (g : SellableMenuModifierGroup) : Type 0 where
  pub some_option : 1 ≤ length g.options
  pub min_met : g.min_selections ≤ length g.options
  pub max_met : g.max_selections ≤ length g.options
  pub options_offered : (o : SellableMenuOption) → Elem o g.options → IsOfferedOption s g.id o

-- A product on the menu: its price at the outlet, its variants and its groups.
pub record IsShown (s : CatalogSnapshot) (outlet : Uuid) (item : SellableMenuProduct) : Type 0 where
  pub assignment : OutletProduct
  pub assigned : Elem assignment s.outlet_products
  pub at_outlet : assignment.outlet_id ≡ outlet
  pub product : Product
  pub product_known : Elem product s.products
  pub of_product : assignment.product_id ≡ product.id
  pub same_product : item.id ≡ product.id
  pub same_category : item.category_id ≡ product.category_id
  pub same_currency : item.currency ≡ product.currency
  pub price : item.price_minor ≡ or_else assignment.price_override_minor product.base_price_minor
  pub variants_offered :
      (v : SellableMenuOption) → Elem v item.variants → IsOfferedVariant s item.id v
  pub groups_choosable :
      (g : SellableMenuModifierGroup) → Elem g item.modifier_groups → IsChoosable s g

-- Its rows as the code finds them for one link.
pub record GroupOf (locale_compare : Compare Text) (s : CatalogSnapshot)
    (shown : SellableMenuModifierGroup) : Type 0 where
  pub link : ProductModifierGroup
  pub group : ModifierGroup
  pub at : found locale_compare s link ≡ some group
  pub enough : group.min_selections ≤ length (options_of locale_compare s group.id)
  pub not_nil : is_nil (options_of locale_compare s group.id) ≡ false
  pub made : sellable_group group (options_of locale_compare s group.id) ≡ shown

length-map : {A B : Type 0} (f : A → B) (xs : List A) → length (map f xs) ≡ length xs
length-map f [] = refl
length-map f (x ∷ xs) = omega (arith, length-map f xs)

length_pos : {A : Type 0} (xs : List A) → is_nil xs ≡ false → 1 ≤ length xs
length_pos [] h = absurd (cc)
length_pos (x ∷ xs) h = omega arith

module _ (locale_compare : Compare Text) (s : CatalogSnapshot) where
  link_step-GroupOf :
      (link : ProductModifierGroup) (o : Option ModifierGroup)
      (rest : Option (List SellableMenuModifierGroup)) (gs : List SellableMenuModifierGroup)
      → found locale_compare s link ≡ o
      → link_step locale_compare s o rest ≡ some gs
      → (later : List SellableMenuModifierGroup) × (rest ≡ some later)
        × ((g : SellableMenuModifierGroup) → Elem g gs → GroupOf locale_compare s g ⊎ Elem g later)
  link_step-GroupOf link none rest gs at h = (gs, h, (λ g m. inr m))
  link_step-GroupOf link (some group) none gs at h = absurd (ground arith)
  link_step-GroupOf link (some group) (some later) gs at h =
      elim (Bool-cases (is_nil (options_of locale_compare s group.id))) [
        | inl e ↦
            let same : later ≡ gs = ground arith in
            (later, refl, (λ g m. inr (subst (Elem g) (sym same) m)))
        | inr e ↦
            let same : sellable_group group (options_of locale_compare s group.id) ∷ later ≡ gs =
              ground arith in
            (
              later,
              refl,
              (λ g m. elim (subst (Elem g) (sym same) m) [
                | inl made ↦ inl (record {
                  link = link;
                  group = group;
                  at = at;
                  enough = ground arith;
                  not_nil = e;
                  made = made;
                })
                | inr later ↦ inr later
              ]),
            )
      ]

  pub sellable_groups-GroupOf :
      (links : List ProductModifierGroup) (gs : List SellableMenuModifierGroup)
      → sellable_groups locale_compare s links ≡ some gs
      → (g : SellableMenuModifierGroup) → Elem g gs
      → GroupOf locale_compare s g
  unfolding sellable_groups
  sellable_groups-GroupOf [] gs h g m =
      let same : [] ≡ gs = cc in absurd (subst (Elem g) (sym same) m)
  sellable_groups-GroupOf (link ∷ links) gs h g m =
      let (later, done, from) =
        link_step-GroupOf link (found locale_compare s link)
          (sellable_groups locale_compare s links) gs refl h in
      elim (from g m) [
        | inl here ↦ here
        | inr there ↦ sellable_groups-GroupOf links later done g there
      ]

  options_offered :
      (group : Uuid) (shown : SellableMenuOption)
      → Elem shown (map sellable_option (options_of locale_compare s group))
      → IsOfferedOption s group shown
  options_offered group shown m =
      let (o, m', same) = (Elem-map sellable_option shown _).0 m in
      let (known, own) =
        (Elem-filter (is_option_of group) o s.modifier_options).0 ((Elem-sort _ o _).0 m') in
      let of : o.group_id ≡ group = ground arith in
      let offered : is_offered o.availability o.status ≡ true = ground arith in
      let (active, available) = (is_offered_iff o.availability o.status).0 offered in
      (o, known, of, active, available, same)

  pub GroupOf-IsChoosable :
      (shown : SellableMenuModifierGroup) → GroupOf locale_compare s shown → IsChoosable s shown
  GroupOf-IsChoosable shown g =
      let options = options_of locale_compare s g.group.id in
      let size = length-map sellable_option options in
      subst (IsChoosable s) g.made (record {
        some_option = omega (arith, size, length_pos options g.not_nil);
        min_met = omega (arith, size, g.enough);
        max_met = ground (arith, size);
        options_offered = options_offered g.group.id;
      })
