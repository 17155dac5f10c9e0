-- ===== src/Catalog/Sold/Shown.antt =====
-- What `buildSellableMenu` writes of a product that it sells.
