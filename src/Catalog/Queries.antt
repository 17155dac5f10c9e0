-- ===== src/Catalog/Queries.antt =====
-- apps/api/src/kernels/catalog/application/queries/get-sellable-menu.ts, over the catalog's tables.
-- `is_sellable_menu` is the check of the answer against the schema of
-- packages/contracts/src/menu.ts, which the validation library makes.
use merchant_operations_plat.Prelude.{
  Bool, not, ◌&&◌, Option, none, some, List, [], Uuid, Text, Result, ok, ◌>>=◌, ◌>>◌, throw_if,
  or_throw, find, filter, ◌==◌, if◌then◌else◌,
}
use merchant_operations_plat.Contracts.Menu.{SellableMenu}
use merchant_operations_plat.Catalog.{is_active, CatalogTenant, CatalogOutlet, CatalogSnapshot}
use merchant_operations_plat.Catalog.Sorting.{Compare}
use merchant_operations_plat.Catalog.SellableMenus.{build_sellable_menu}

-- The rows of every tenant, each table in the order that the snapshot's query asks for.
pub record CatalogTables : Type 0 where
  pub tenants : List CatalogTenant
  pub outlets : List CatalogOutlet
  pub rows : CatalogSnapshot

pub data CatalogError : Type 0 where
  tenant_not_found outlet_not_found invalid_menu : CatalogError

abbrev pub find_tenant : CatalogTables → Uuid → Option CatalogTenant
find_tenant tables tenant = find (λ t. t.id == tenant) tables.tenants

abbrev pub find_outlet : CatalogTables → Uuid → Uuid → Option CatalogOutlet
find_outlet tables tenant outlet =
    find (λ o. o.id == outlet && o.tenant_id == tenant) tables.outlets

-- The rows of one tenant.
abbrev pub snapshot_of : CatalogTables → Uuid → CatalogSnapshot
snapshot_of tables tenant = record {
  categories = filter (λ r. r.tenant_id == tenant) tables.rows.categories;
  modifier_groups = filter (λ r. r.tenant_id == tenant) tables.rows.modifier_groups;
  modifier_options = filter (λ r. r.tenant_id == tenant) tables.rows.modifier_options;
  outlet_products = filter (λ r. r.tenant_id == tenant) tables.rows.outlet_products;
  product_images = filter (λ r. r.tenant_id == tenant) tables.rows.product_images;
  product_modifier_groups = filter (λ r. r.tenant_id == tenant) tables.rows.product_modifier_groups;
  product_variants = filter (λ r. r.tenant_id == tenant) tables.rows.product_variants;
  products = filter (λ r. r.tenant_id == tenant) tables.rows.products;
}

abbrev snapshot_if : CatalogTables → Option CatalogTenant → Option CatalogSnapshot
snapshot_if tables none = none
snapshot_if tables (some t) = some (snapshot_of tables t.id)

abbrev pub get_snapshot : CatalogTables → Uuid → Option CatalogSnapshot
get_snapshot tables tenant = snapshot_if tables (find_tenant tables tenant)

abbrev pub empty_menu : Uuid → SellableMenu
empty_menu outlet = record { categories = []; outlet_id = outlet; products = [] }

module _ (locale_compare : Compare Text) (is_sellable_menu : SellableMenu → Bool) where
  unfoldable pub get_sellable_menu : CatalogTables → Uuid → Uuid → Result CatalogError SellableMenu
  get_sellable_menu tables tenant_id outlet_id = do
    tenant ← or_throw (find_tenant tables tenant_id) tenant_not_found
    outlet ← or_throw (find_outlet tables tenant_id outlet_id) outlet_not_found
    snapshot ← or_throw (get_snapshot tables tenant_id) tenant_not_found
    let menu =
        if is_active tenant.status && is_active outlet.status
        then build_sellable_menu locale_compare snapshot outlet_id
        else empty_menu outlet_id
    throw_if (not (is_sellable_menu menu)) invalid_menu
    ok menu
