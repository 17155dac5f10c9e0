-- ===== src/OrderIntake/Pricing/Tests.antt =====
-- The pricing theorems on a menu of one product with a group of options.
use merchant_operations_plat.Prelude.{◌≡◌, inr, refl, arith, none, some, [], ◌∷◌}
use merchant_operations_plat.Prelude.Int.{pos}
use merchant_operations_plat.OrderIntake.Pricing.{
  ModifierGroup, MenuProduct, RequestedLine, menu_get,
}
use merchant_operations_plat.OrderIntake.Pricing.Lines.{IsSold}

abbrev sugar : ModifierGroup
sugar = record {
  max_selections = 1;
  min_selections = 1;
  name = 20;
  options =
      record { id = 31; name = 21; price_delta_minor = pos 0 }
      ∷ record { id = 32; name = 22; price_delta_minor = pos 50 }
      ∷ [];
}

abbrev coffee : MenuProduct
coffee = record {
  currency = 0;
  id = 11;
  modifier_groups = sugar ∷ [];
  name = 23;
  price_minor = pos 200;
  variants = [];
}

abbrev two_coffees : RequestedLine
two_coffees = record {
  modifier_option_ids = 32 ∷ [];
  note = none;
  product_id = 11;
  quantity = 2;
  variant_id = none;
}

two_coffees-IsSold : IsSold coffee two_coffees
two_coffees-IsSold = record {
  variant_fits = inr (refl, refl);
  options_distinct = (refl, tt);
  groups_in_bounds = ((omega arith, omega arith), tt);
  options_known = refl;
}

coffee-found : menu_get (coffee ∷ []) 11 ≡ some coffee
unfolding menu_get
coffee-found = refl
