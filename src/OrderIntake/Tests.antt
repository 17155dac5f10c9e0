-- ===== src/OrderIntake/Tests.antt =====
-- The kitchen's announcements on a small shop.
use merchant_operations_plat.Contracts.Orders.{OrderSource}
use merchant_operations_plat.Database.Action.{Action}
use merchant_operations_plat.OrderIntake.Once.{submit_again}
use merchant_operations_plat.OrderIntake.Samples.{tea_menu, teas, cashier, tea_order}
use merchant_operations_plat.Prelude.Int.{◌*ℤ◌, ◌+ℤ◌}
use merchant_operations_plat.Billing.Store.{upsert_counter}
use merchant_operations_plat.Prelude.{◌≡◌, refl, Uuid, none, ok}
use merchant_operations_plat.Database.{Db}
use merchant_operations_plat.Database.Samples.{unpaid_shop}
use merchant_operations_plat.OrderIntake.Service.{submit}

abbrev always_open : Uuid → Action (Unit {0})
always_open visit db = (ok tt, db)

abbrev tea_shop : Db
tea_shop = (submit always_open tea_menu 1 2 (teas 2) none OrderSource.pos 51 cashier unpaid_shop).1

tea-submitted :
    submit always_open tea_menu 1 2 (teas 2) none OrderSource.pos 51 cashier unpaid_shop
    ≡ (ok tea_order, tea_shop)
unfolding submit upsert_counter ◌*ℤ◌ ◌+ℤ◌
tea-submitted = refl

submit_again_example :
    submit always_open tea_menu 1 2 (teas 5) none OrderSource.pos 51 cashier tea_shop
    ≡ (ok tea_order, tea_shop)
submit_again_example =
    submit_again always_open tea_menu 1 2 (teas 2) (teas 5) none OrderSource.pos 51 cashier cashier
      unpaid_shop (λ visit db. refl) tea-submitted
