-- ===== src/Catalog/Sold.antt =====
-- apps/api/src/kernels/catalog/domain/sellable-menu.ts: which products the menu of an outlet holds.
pub mod Groups
pub mod Conditions
pub mod Entries
pub mod Products
pub mod Contents
pub mod Shown
pub mod Listed
use merchant_operations_plat.Prelude.{◌≡◌, ◌⊎◌, ◌≤◌, Bool, true, ◌&&◌, List, Uuid, filter}
use merchant_operations_plat.Database.Tables.{count_where}
use merchant_operations_plat.Catalog.{
  CatalogRecordStatus, ProductAvailability, is_active, Category, Product, ProductVariant,
  ModifierGroup, ProductModifierGroup, ProductImage, OutletProduct, CatalogSnapshot,
}
use merchant_operations_plat.Catalog.SellableMenus.{is_option_of, or_else}
use merchant_operations_plat.Catalog.Members.{Elem, IsKeyed}

-- The primary keys of the tables.
pub record HasKeys (s : CatalogSnapshot) : Type 0 where
  pub categories_keyed : IsKeyed (λ (c : Category). c.id) s.categories
  pub groups_keyed : IsKeyed (λ (g : ModifierGroup). g.id) s.modifier_groups
  pub products_keyed : IsKeyed (λ (p : Product). p.id) s.products

-- A product without variants in use, or with one of them left.
abbrev pub HasVariantLeft : CatalogSnapshot → Uuid → Type 0
HasVariantLeft s id =
    ((v : ProductVariant)
      → Elem v s.product_variants
      → v.product_id ≡ id
      → v.status ≡ CatalogRecordStatus.active
      → ⊥)
    ⊎ ((v : ProductVariant) × Elem v s.product_variants
        × (v.product_id ≡ id)
        × (v.status ≡ CatalogRecordStatus.active)
        × (v.availability ≡ ProductAvailability.available))

-- A group in use that a link in use gives to the product.
pub record IsLinked (s : CatalogSnapshot) (id : Uuid) (group : ModifierGroup) : Type 0 where
  pub link : ProductModifierGroup
  pub link_known : Elem link s.product_modifier_groups
  pub link_of : link.product_id ≡ id
  pub link_active : link.status ≡ CatalogRecordStatus.active
  pub group_known : Elem group s.modifier_groups
  pub group_of : group.id ≡ link.modifier_group_id
  pub group_active : group.status ≡ CatalogRecordStatus.active

-- What it takes for the outlet to sell the product.
pub record Sells (s : CatalogSnapshot) (outlet id : Uuid) : Type 0 where
  pub assignment : OutletProduct
  pub assigned : Elem assignment s.outlet_products
  pub at_outlet : assignment.outlet_id ≡ outlet
  pub assignment_active : assignment.status ≡ CatalogRecordStatus.active
  pub of_product : assignment.product_id ≡ id
  pub product : Product
  pub product_known : Elem product s.products
  pub product_id : product.id ≡ id
  pub product_active : product.status ≡ CatalogRecordStatus.active
  pub category : Category
  pub category_known : Elem category s.categories
  pub category_id : category.id ≡ product.category_id
  pub category_active : category.status ≡ CatalogRecordStatus.active
  pub offered :
      or_else assignment.availability_override product.availability ≡ ProductAvailability.available
  pub variant_left : HasVariantLeft s id
  pub groups_satisfiable :
      (group : ModifierGroup)
      → IsLinked s id group
      → group.min_selections ≤ count_where (is_option_of group.id) s.modifier_options
