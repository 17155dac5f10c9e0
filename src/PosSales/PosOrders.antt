-- ===== src/PosSales/PosOrders.antt =====
-- apps/api/src/modules/pos-sales/application/pos-orders.service.ts: refund and cancel at the
-- cashier.
use merchant_operations_plat.Prelude.{Bool, false, Option, none, some, Uuid, Text, if◌then◌else◌}
use merchant_operations_plat.Prelude.Int.{ℤ, ltb_ℤ}
use merchant_operations_plat.Contracts.Billing.{is_cash}
use merchant_operations_plat.Database.{Order}
use merchant_operations_plat.Database.Faults.{Fault}
use merchant_operations_plat.Database.Action.{Action, gets, or_throw, ◌>>=◌, ◌>>◌, throw_if}
use merchant_operations_plat.OrderIntake.Service.{cancel_order}
use merchant_operations_plat.Billing.{MutationContext}
use merchant_operations_plat.Billing.Store.{is_order_paid, paid_order}
use merchant_operations_plat.Billing.Service.{SaleRefunds}
use merchant_operations_plat.Billing.Service.Refund.{
  PaidCheckoutRecord, find_paid_checkout_by_order, refund_order,
}
use merchant_operations_plat.PosSales.ShiftService.{find_open, expected_cash}

abbrev is_cash_checkout : Option PaidCheckoutRecord → Bool
is_cash_checkout none = false
is_cash_checkout (some paid) = is_cash paid.checkout.payment.method

abbrev exceeds : ℤ → Option ℤ → Bool
exceeds amount none = false
exceeds amount (some drawer) = ltb_ℤ drawer amount

-- `refund`; its `refund` body without the approval and the shift, which is found here.
unfoldable pub refund :
    Uuid → Uuid → Uuid → ℤ → Text → Text → Option Uuid → MutationContext → Action SaleRefunds
unfolding find_open find_paid_checkout_by_order expected_cash refund_order
refund tenant outlet order amount reason key approved_by context = do
  shift ← or_throw (← gets (find_open tenant outlet context.actor_id)) Fault.pos_shift_required
  paid ← gets (find_paid_checkout_by_order tenant outlet order)
  drawer ← expected_cash tenant outlet context.actor_id
  throw_if (if is_cash_checkout paid then exceeds amount drawer else false)
      Fault.pos_cash_out_exceeds_drawer
  refund_order
      (record {
        approved_by = approved_by;
        idempotency_key = key;
        order_id = order;
        outlet_id = outlet;
        amount_minor = amount;
        reason = reason;
        register_session_id = shift.id;
        tenant_id = tenant;
      })
      context

-- The guard that `cancel` runs under the order's lock.
abbrev ensure_unpaid : Uuid → Uuid → Action (Unit {0})
ensure_unpaid tenant order = do
  paid ← gets (is_order_paid tenant order)
  throw_if paid Fault.order_already_paid

unfoldable pub cancel : Uuid → Uuid → Uuid → Text → MutationContext → Action Order
unfolding cancel_order paid_order
cancel tenant outlet order reason context =
    cancel_order tenant outlet order reason (ensure_unpaid tenant order) context
