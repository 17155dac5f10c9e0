-- ===== src/Catalog.antt =====
-- apps/api/src/kernels/catalog/domain/catalog-records.ts: the rows of the tenant's catalog. The
-- timestamps, which nothing reads, are left out; prices arrive as integer texts and are read as ℤ.
pub mod Sorting
pub mod SellableMenus
pub mod Members
pub mod Sold
pub mod Queries
pub mod Ordering
mod Tests
use merchant_operations_plat.Prelude.{ℕ, Bool, true, false, ◌&&◌, Option, List, Uuid, Text}
use merchant_operations_plat.Prelude.Int.{ℤ}
use merchant_operations_plat.Contracts.Menu.{ModifierSelectionType}

-- Also `OrganizationUnitStatus`, which has the same two values.
pub data CatalogRecordStatus : Type 0 where
  active inactive : CatalogRecordStatus

pub data ProductAvailability : Type 0 where
  available sold_out : ProductAvailability

abbrev pub is_active : CatalogRecordStatus → Bool
is_active active = true
is_active inactive = false

abbrev pub is_available : ProductAvailability → Bool
is_available available = true
is_available sold_out = false

-- `isOffered`
abbrev pub is_offered : ProductAvailability → CatalogRecordStatus → Bool
is_offered availability status = is_active status && is_available availability

pub record Category : Type 0 where
  pub display_order : ℕ
  pub id : Uuid
  pub name : Text
  pub slug : Text
  pub status : CatalogRecordStatus
  pub tenant_id : Uuid

pub record Product : Type 0 where
  pub availability : ProductAvailability
  pub base_price_minor : ℤ
  pub category_id : Uuid
  pub currency : Text
  pub description : Option Text
  pub id : Uuid
  pub name : Text
  pub slug : Text
  pub status : CatalogRecordStatus
  pub tenant_id : Uuid

pub record ProductVariant : Type 0 where
  pub availability : ProductAvailability
  pub display_order : ℕ
  pub id : Uuid
  pub name : Text
  pub price_delta_minor : ℤ
  pub product_id : Uuid
  pub status : CatalogRecordStatus
  pub tenant_id : Uuid

pub record ModifierGroup : Type 0 where
  pub display_order : ℕ
  pub id : Uuid
  pub max_selections : ℕ
  pub min_selections : ℕ
  pub name : Text
  pub selection_type : ModifierSelectionType
  pub status : CatalogRecordStatus
  pub tenant_id : Uuid

pub record ModifierOption : Type 0 where
  pub availability : ProductAvailability
  pub display_order : ℕ
  pub group_id : Uuid
  pub id : Uuid
  pub name : Text
  pub price_delta_minor : ℤ
  pub status : CatalogRecordStatus
  pub tenant_id : Uuid

pub record ProductModifierGroup : Type 0 where
  pub display_order : ℕ
  pub id : Uuid
  pub modifier_group_id : Uuid
  pub product_id : Uuid
  pub status : CatalogRecordStatus
  pub tenant_id : Uuid

pub record ProductImage : Type 0 where
  pub alt_text : Option Text
  pub content_type : Text
  pub display_order : ℕ
  pub height : Option ℕ
  pub id : Uuid
  pub is_primary : Bool
  pub object_key : Text
  pub product_id : Uuid
  pub status : CatalogRecordStatus
  pub tenant_id : Uuid
  pub width : Option ℕ

pub record OutletProduct : Type 0 where
  pub availability_override : Option ProductAvailability
  pub display_order : ℕ
  pub id : Uuid
  pub outlet_id : Uuid
  pub price_override_minor : Option ℤ
  pub product_id : Uuid
  pub status : CatalogRecordStatus
  pub tenant_id : Uuid

pub record CatalogTenant : Type 0 where
  pub currency : Text
  pub id : Uuid
  pub status : CatalogRecordStatus

pub record CatalogOutlet : Type 0 where
  pub id : Uuid
  pub status : CatalogRecordStatus
  pub tenant_id : Uuid

pub record CatalogSnapshot : Type 0 where
  pub categories : List Category
  pub modifier_groups : List ModifierGroup
  pub modifier_options : List ModifierOption
  pub outlet_products : List OutletProduct
  pub product_images : List ProductImage
  pub product_modifier_groups : List ProductModifierGroup
  pub product_variants : List ProductVariant
  pub products : List Product
