-- ===== src/Inventory.antt =====
-- The inventory module (apps/api/src/modules/inventory) with its contract.
pub mod Quantity
