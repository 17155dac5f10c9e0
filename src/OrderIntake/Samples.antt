-- ===== src/OrderIntake/Samples.antt =====
-- A counter that sells tea, for tests.
use merchant_operations_plat.Prelude.{ℕ, Uuid, List, [], ◌∷◌, none, some}
use merchant_operations_plat.Prelude.Int.{pos}
use merchant_operations_plat.Contracts.Orders.{takeaway}
use merchant_operations_plat.Database.{Db, Order}
use merchant_operations_plat.Database.Samples.{sample_order, unpaid_shop}
use merchant_operations_plat.OrderIntake.Pricing.{MenuProduct}
use merchant_operations_plat.OrderIntake.Orders.{SubmitContext}
use merchant_operations_plat.OrderIntake.Service.{OrderInput}

-- A tea for 150, and an order of two of them at the counter.
abbrev pub tea : MenuProduct
tea = record {
  currency = 0;
  id = 11;
  modifier_groups = [];
  name = 23;
  price_minor = pos 150;
  variants = [];
}

abbrev pub tea_menu : Uuid → Uuid → Db → List MenuProduct
tea_menu tenant outlet db = tea ∷ []

abbrev pub teas : ℕ → OrderInput
teas quantity = record {
  items =
      record {
        modifier_option_ids = [];
        note = none;
        product_id = 11;
        quantity = quantity;
        variant_id = none;
      }
      ∷ [];
  note = none;
  order_type = takeaway;
}

abbrev pub cashier : SubmitContext
cashier = record { actor_id = some 9; now = 7 }

abbrev pub tea_order : Order
tea_order = record sample_order {
  id = unpaid_shop.next_id;
  submitted_at = some 7;
  idempotency_key = 51;
  items =
      record {
        line_total_minor = pos 300;
        modifiers = [];
        name_snapshot = 23;
        note = none;
        product_id = 11;
        quantity = 2;
        unit_price_minor = pos 150;
        variant_name_snapshot = none;
      }
      ∷ [];
}
