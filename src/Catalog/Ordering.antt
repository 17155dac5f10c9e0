-- ===== src/Catalog/Ordering.antt =====
-- An order is priced against the menu that the catalog answers
-- (apps/api/src/kernels/order-intake/application/order-intake.service.ts): what it can be made of.
use merchant_operations_plat.Prelude.{
  ◌≡◌, inl, inr, sym, ap, subst, ◌∙◌, Bool, true, false, ◌&&◌, some, List, [], ◌∷◌, map, Uuid, Text,
  Result, ok, arith, All, ◌==◌, ==_iff, if◌then◌else◌, ok-then, ok-or_throw, ok-throw_if,
  Bool-cases, Option-cases, ◌⊎◌,
}
use merchant_operations_plat.Contracts.Menu.{
  SellableMenuOption, SellableMenuModifierGroup, SellableMenuProduct, SellableMenu,
}
use merchant_operations_plat.Database.Tables.{find_holds}
use merchant_operations_plat.OrderIntake.Pricing.{
  MenuOption, ModifierGroup, MenuProduct, RequestedLine, PricedLine, PricedOrder, menu_get,
  price_order_lines,
}
use merchant_operations_plat.OrderIntake.Pricing.Menus.{menu_get_iff}
use merchant_operations_plat.OrderIntake.Pricing.Orders.{
  Quotes, done, next, price_order_lines_decides,
}
use merchant_operations_plat.Catalog.{
  CatalogRecordStatus, is_active, CatalogTenant, CatalogOutlet, CatalogSnapshot,
}
use merchant_operations_plat.Catalog.Sorting.{Compare}
use merchant_operations_plat.Catalog.SellableMenus.{build_sellable_menu}
use merchant_operations_plat.Catalog.Members.{Elem, Elem-map}
use merchant_operations_plat.Catalog.Members.Keyed.{filter-IsKeyed}
use merchant_operations_plat.Catalog.Queries.{
  CatalogTables, CatalogError, find_tenant, find_outlet, get_snapshot, snapshot_of, empty_menu,
  get_sellable_menu,
}
use merchant_operations_plat.Catalog.Sold.{HasKeys, Sells}
use merchant_operations_plat.Catalog.Sold.Groups.{is_active_iff}
use merchant_operations_plat.Catalog.Sold.Products.{products_iff}

-- The part of the menu that pricing reads.
abbrev pub as_option : SellableMenuOption → MenuOption
as_option o = record { id = o.id; name = o.name; price_delta_minor = o.price_delta_minor }

abbrev pub as_group : SellableMenuModifierGroup → ModifierGroup
as_group g = record {
  max_selections = g.max_selections;
  min_selections = g.min_selections;
  name = g.name;
  options = map as_option g.options;
}

abbrev pub as_product : SellableMenuProduct → MenuProduct
as_product p = record {
  currency = p.currency;
  id = p.id;
  modifier_groups = map as_group p.modifier_groups;
  name = p.name;
  price_minor = p.price_minor;
  variants = map as_option p.variants;
}

menu_get-Elem :
    (menu : List MenuProduct) (id : Uuid) (p : MenuProduct)
    → menu_get menu id ≡ some p
    → Elem p menu × (p.id ≡ id)
unfolding menu_get
menu_get-Elem [] id p h = absurd (cc)
menu_get-Elem (x ∷ xs) id p h = elim (Option-cases (menu_get xs id)) [
  | inr (q, e) ↦
      let later : menu_get xs id ≡ some p = ground arith in
      let (m, same) = menu_get-Elem xs id p later in (inr m, same)
  | inl e ↦ elim (Bool-cases (x.id == id)) [
    | inl here ↦
        let same : x ≡ p = ground arith in
        (inl same, ap (λ (q : MenuProduct). q.id) (sym same) ∙ (==_iff x.id id).0 here)
    | inr other ↦ absurd (ground arith)
  ]
]

-- What a line of the menu's products asks for is one of these products.
menu_get-sold :
    (products : List SellableMenuProduct) (id : Uuid) (p : MenuProduct)
    → menu_get (map as_product products) id ≡ some p
    → Elem id (map (λ (q : SellableMenuProduct). q.id) products)
menu_get-sold products id p h =
    let (m, same) = menu_get-Elem (map as_product products) id p h in
    let (q, m', at) = (Elem-map as_product p products).0 m in
    (Elem-map (λ (q : SellableMenuProduct). q.id) id products).1
      (q, m', ap (λ (r : MenuProduct). r.id) at ∙ same)

Quotes-sold :
    (products : List SellableMenuProduct) (c : Text) {lines : List RequestedLine}
    {quotes : List PricedLine}
    → Quotes (map as_product products) c lines quotes
    → All
        (λ (l : RequestedLine).
          Elem l.product_id (map (λ (q : SellableMenuProduct). q.id) products))
        lines
Quotes-sold products c done = tt
Quotes-sold products c (next p line found same sold q) = (
  menu_get-sold products line.product_id p
      ((menu_get_iff (map as_product products) line.product_id p).1 found),
  Quotes-sold products c q,
)

priced-sold :
    (products : List SellableMenuProduct) (line : RequestedLine) (lines : List RequestedLine)
    (order : PricedOrder)
    → price_order_lines (map as_product products) (line ∷ lines) ≡ ok order
    → All
        (λ (l : RequestedLine).
          Elem l.product_id (map (λ (q : SellableMenuProduct). q.id) products))
        (line ∷ lines)
priced-sold products line lines order h =
    elim (price_order_lines_decides (map as_product products) line lines) [
      | inl (c, quotes, q, e) ↦ Quotes-sold products c q
      | inr (f, fails, e) ↦ absurd (cc (h, e))
    ]

snapshot_of-HasKeys :
    (tables : CatalogTables) (tenant : Uuid)
    → HasKeys tables.rows
    → HasKeys (snapshot_of tables tenant)
snapshot_of-HasKeys tables tenant keys = record {
  categories_keyed = filter-IsKeyed _ _ tables.rows.categories keys.categories_keyed;
  groups_keyed = filter-IsKeyed _ _ tables.rows.modifier_groups keys.groups_keyed;
  products_keyed = filter-IsKeyed _ _ tables.rows.products keys.products_keyed;
}

-- The tenant and its outlet are there and in use.
pub record IsOpen (tables : CatalogTables) (tenant_id outlet_id : Uuid) : Type 0 where
  pub tenant : CatalogTenant
  pub tenant_found : find_tenant tables tenant_id ≡ some tenant
  pub tenant_active : tenant.status ≡ CatalogRecordStatus.active
  pub outlet : CatalogOutlet
  pub outlet_found : find_outlet tables tenant_id outlet_id ≡ some outlet
  pub outlet_active : outlet.status ≡ CatalogRecordStatus.active

snapshot_lem :
    (tables : CatalogTables) (tenant_id : Uuid) (tenant : CatalogTenant) (s : CatalogSnapshot)
    → find_tenant tables tenant_id ≡ some tenant
    → get_snapshot tables tenant_id ≡ some s
    → snapshot_of tables tenant_id ≡ s
snapshot_lem tables tenant_id tenant s there h =
    let own : tenant.id ≡ tenant_id =
      (==_iff tenant.id tenant_id).0
        (find_holds (λ (t : CatalogTenant). t.id == tenant_id) tables.tenants {x = tenant} there) in
    let same : snapshot_of tables tenant.id ≡ s = ground arith in
    subst (λ id. snapshot_of tables id ≡ s) own same

ok_injective :
    (a b : SellableMenu) → ◌≡◌ {A = Result CatalogError SellableMenu} (ok a) (ok b) → a ≡ b
ok_injective a b h = cc

if_true : (b : Bool) (x y m : SellableMenu) → b ≡ true → (if b then x else y) ≡ m → x ≡ m
if_true b x y m h e = ground arith

if_false : (b : Bool) (x y m : SellableMenu) → b ≡ false → (if b then x else y) ≡ m → y ≡ m
if_false b x y m h e = ground arith

both : (a b : Bool) → (a && b) ≡ true → (a ≡ true) × (b ≡ true)
both a b h = ground arith

module _ (locale_compare : Compare Text) (is_sellable_menu : SellableMenu → Bool) where
  get_sellable_menu-IsOpen :
      (tables : CatalogTables) (tenant_id outlet_id : Uuid) (menu : SellableMenu)
      → get_sellable_menu locale_compare is_sellable_menu tables tenant_id outlet_id ≡ ok menu
      → (menu ≡ empty_menu outlet_id)
        ⊎ (IsOpen tables tenant_id outlet_id
            × (build_sellable_menu locale_compare (snapshot_of tables tenant_id) outlet_id ≡ menu))
  unfolding get_sellable_menu
  get_sellable_menu-IsOpen tables tenant_id outlet_id menu h =
      let (tenant, t, later) = ok-then _ _ menu h in
      let (outlet, o, last) = ok-then _ _ menu later in
      let (snapshot, s, answered) = ok-then _ _ menu last in
      let (accepted, answer) = ok-throw_if _ _ _ menu answered in
      let tenant_found = ok-or_throw _ _ tenant t in
      let outlet_found = ok-or_throw _ _ outlet o in
      let rows =
        snapshot_lem tables tenant_id tenant snapshot tenant_found (ok-or_throw _ _ snapshot s) in
      let chosen : (if is_active tenant.status && is_active outlet.status
            then build_sellable_menu locale_compare snapshot outlet_id
            else empty_menu outlet_id)
          ≡ menu =
        ok_injective _ menu answer in
      elim (Bool-cases (is_active tenant.status && is_active outlet.status)) [
        | inr shut ↦ inl (
            sym (
              if_false (is_active tenant.status && is_active outlet.status)
                (build_sellable_menu locale_compare snapshot outlet_id) (empty_menu outlet_id) menu
                shut chosen))
        | inl in_use ↦ inr (
          record {
            tenant = tenant;
            tenant_found = tenant_found;
            tenant_active =
                (is_active_iff tenant.status).0 ((both _ (is_active outlet.status) in_use).0);
            outlet = outlet;
            outlet_found = outlet_found;
            outlet_active =
                (is_active_iff outlet.status).0 ((both (is_active tenant.status) _ in_use).1);
          },
          ap (λ rows. build_sellable_menu locale_compare rows outlet_id) rows
              ∙ if_true (is_active tenant.status && is_active outlet.status)
                  (build_sellable_menu locale_compare snapshot outlet_id) (empty_menu outlet_id)
                  menu in_use chosen,
        )
      ]

  sold_lines :
      (s : CatalogSnapshot) (keys : HasKeys s) (outlet : Uuid) (lines : List RequestedLine)
      → All
          (λ (l : RequestedLine). Elem l.product_id (
            map
              (λ (q : SellableMenuProduct). q.id)
              (build_sellable_menu locale_compare s outlet).products))
          lines
      → All (λ (l : RequestedLine). Sells s outlet l.product_id) lines
  sold_lines s keys outlet [] h = tt
  sold_lines s keys outlet (l ∷ ls) h = (
    (products_iff locale_compare s keys outlet l.product_id).0 h.0,
    sold_lines s keys outlet ls h.1,
  )

  -- Where the rows of the catalog have different identifiers, an order of at least one line that is
  -- priced against the menu that the catalog answers for an outlet comes from a tenant and an outlet
  -- that are there and in use, and the outlet sells the product of every line.
  pub priced_order-Sells :
      (tables : CatalogTables) (tenant_id outlet_id : Uuid) (menu : SellableMenu)
      (line : RequestedLine) (lines : List RequestedLine) (order : PricedOrder)
      → HasKeys tables.rows
      → get_sellable_menu locale_compare is_sellable_menu tables tenant_id outlet_id ≡ ok menu
      → price_order_lines (map as_product menu.products) (line ∷ lines) ≡ ok order
      → IsOpen tables tenant_id outlet_id
        × All
            (λ (l : RequestedLine). Sells (snapshot_of tables tenant_id) outlet_id l.product_id)
            (line ∷ lines)
  priced_order-Sells tables tenant_id outlet_id menu line lines order keys got priced =
      let sold = priced-sold menu.products line lines order priced in
      elim (get_sellable_menu-IsOpen tables tenant_id outlet_id menu got) [
        | inl shut ↦ absurd (
            subst
              (λ (m : SellableMenu).
                Elem line.product_id (map (λ (q : SellableMenuProduct). q.id) m.products))
              shut (sold.0))
        | inr (opened, built) ↦ (
          opened,
          sold_lines (snapshot_of tables tenant_id) (snapshot_of-HasKeys tables tenant_id keys)
              outlet_id (line ∷ lines)
              (subst
                (λ (m : SellableMenu).
                  All
                    (λ (l : RequestedLine).
                      Elem l.product_id (map (λ (q : SellableMenuProduct). q.id) m.products))
                    (line ∷ lines))
                (sym built) sold),
        )
      ]
