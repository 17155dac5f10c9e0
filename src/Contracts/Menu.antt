-- ===== src/Contracts/Menu.antt =====
-- packages/contracts/src/menu.ts: what a cashier or a guest can order at one outlet.
use merchant_operations_plat.Prelude.{ℕ, Option, List, Uuid, Text}
use merchant_operations_plat.Prelude.Int.{ℤ}

pub data ModifierSelectionType : Type 0 where
  single multiple : ModifierSelectionType

pub record SellableMenuOption : Type 0 where
  pub id : Uuid
  pub name : Text
  pub price_delta_minor : ℤ

pub record SellableMenuModifierGroup : Type 0 where
  pub id : Uuid
  pub max_selections : ℕ
  pub min_selections : ℕ
  pub name : Text
  pub options : List SellableMenuOption
  pub selection_type : ModifierSelectionType

pub record SellableMenuProduct : Type 0 where
  pub category_id : Uuid
  pub currency : Text
  pub id : Uuid
  pub image_id : Option Uuid
  pub modifier_groups : List SellableMenuModifierGroup
  pub name : Text
  pub price_minor : ℤ
  pub variants : List SellableMenuOption

pub record SellableMenuCategory : Type 0 where
  pub id : Uuid
  pub name : Text

pub record SellableMenu : Type 0 where
  pub categories : List SellableMenuCategory
  pub outlet_id : Uuid
  pub products : List SellableMenuProduct
