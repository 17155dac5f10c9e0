-- ===== src/PosSales/Tests.antt =====
-- The cashier's theorems on a small shop.
use merchant_operations_plat.Prelude.{◌≡◌, ◌⊎◌, refl, true, false, some, ok}
use merchant_operations_plat.Prelude.Int.{pos}
use merchant_operations_plat.Database.{Db, Order, CashMovement, cash_out}
use merchant_operations_plat.Database.Tables.{count_where}
use merchant_operations_plat.Database.Samples.{sample_order, sample_shift, unpaid_shop, paid_shop}
use merchant_operations_plat.Billing.{MutationContext}
use merchant_operations_plat.Billing.Store.{is_order_paid, paid_order}
use merchant_operations_plat.OrderIntake.Decisions.{is_live, as_canceled}
use merchant_operations_plat.OrderIntake.Decisions
use merchant_operations_plat.OrderIntake.Service.{cancel_order}
use merchant_operations_plat.PosSales.Shifts.{is_open_by_id, NewMovement, close_session}
use merchant_operations_plat.PosSales.ShiftService.{decide_locked}
use merchant_operations_plat.PosSales.Closing.{ClosedNow, close_session-ClosedNow}
use merchant_operations_plat.PosSales.PosOrders.{cancel}
use merchant_operations_plat.PosSales.Cancellation.{CanceledNow, cancel-ok}

abbrev cashier : MutationContext
cashier = record { actor_id = 9; now = 20 }

abbrev sample_movement : CashMovement
sample_movement = record {
  id = 8;
  amount_minor = pos 30;
  direction = cash_out;
  idempotency_key = 80;
  reason = 0;
  actor_id = 9;
}

abbrev sample_cash_out : NewMovement
sample_cash_out = record {
  amount_minor = pos 30;
  direction = cash_out;
  idempotency_key = 80;
  reason = 0;
}

abbrev closed_shop : Db
closed_shop = (close_session sample_shift (decide_locked (pos 480) (some 5)) cashier unpaid_shop).1

close_session-ClosedNow_example :
    ClosedNow sample_shift (pos 480) (some 5) cashier unpaid_shop closed_shop
      × (count_where (is_open_by_id 1 4) closed_shop.register_sessions ≡ 0)
    ⊎ (closed_shop ≡ unpaid_shop)
close_session-ClosedNow_example =
    close_session-ClosedNow sample_shift (pos 480) (some 5) cashier unpaid_shop

sample_order-paid : is_order_paid 1 3 paid_shop ≡ true
unfolding paid_order
sample_order-paid = refl

abbrev canceled_order : Order
canceled_order = as_canceled cashier 0 false sample_order

abbrev canceled_shop : Db
canceled_shop = (cancel 1 2 3 0 cashier unpaid_shop).1

sample_order-canceled : cancel 1 2 3 0 cashier unpaid_shop ≡ (ok canceled_order, canceled_shop)
unfolding cancel cancel_order Decisions.cancel paid_order
sample_order-canceled = refl

cancel-ok_example :
    (canceled_shop ≡ unpaid_shop)
    ⊎ (count_where (is_live 1 2 3) unpaid_shop.orders ≡ 1)
      × (is_order_paid 1 3 unpaid_shop ≡ false)
      × CanceledNow 1 2 3 0 cashier unpaid_shop canceled_shop
      × (canceled_shop.bills ≡ unpaid_shop.bills)
      × (canceled_shop.sales ≡ unpaid_shop.sales)
cancel-ok_example =
    cancel-ok 1 2 3 0 cashier unpaid_shop {o = canceled_order} {db' = canceled_shop}
      sample_order-canceled
