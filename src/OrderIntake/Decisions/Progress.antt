-- ===== src/OrderIntake/Decisions/Progress.antt =====
-- How the kitchen's announcements move an order (`recordKitchenProgress`): forward only.
use merchant_operations_plat.Prelude.{
  ◌≡◌, ◌↔◌, ◌⊎◌, refl, ◌≤◌, ◌<◌, true, false, Uuid, ok, arith, any, if◌then◌else◌,
}
use merchant_operations_plat.Contracts.Orders.{
  OrderStatus, is_canceled, is_order_approved, status_code,
}
use merchant_operations_plat.Database.{Db, Order}
use merchant_operations_plat.Database.Tables.{
  update_many, count_where, count_where-update_many, update_many_none,
}
use merchant_operations_plat.OrderIntake.Fulfillment.{
  KitchenProgress, to_status, includes, statuses_before,
}
use merchant_operations_plat.OrderIntake.Decisions.{
  unchanged, missing, order_in_tenant, is_movable, with_status, move_status,
}
use merchant_operations_plat.OrderIntake.Service.{record_kitchen_progress}

-- An announcement applies in exactly the statuses from SUBMITTED up to the one before it.
pub includes-statuses_before :
    (s : OrderStatus) (p : KitchenProgress)
    → (includes s (statuses_before p) ≡ true)
      ↔ (1 ≤ status_code s) × (status_code s < status_code (to_status p))
unfolding statuses_before
includes-statuses_before s p = ground arith

moved_once :
    (tenant id : Uuid) (p : KitchenProgress) (o : Order)
    → is_movable tenant id (statuses_before p) o ≡ true
    → is_movable tenant id (statuses_before p) (with_status (to_status p) o) ≡ false
unfolding statuses_before
moved_once tenant id p o h = ground arith

-- An order stays as it is, or an approved one that is not canceled moves forward.
abbrev pub Forward : KitchenProgress → Order → Order → Type 0
Forward p o o' =
    (o' ≡ o)
    ⊎ (o' ≡ with_status (to_status p) o)
      × (is_order_approved o.moderation_status ≡ true)
      × (is_canceled o.status ≡ false)
      × (status_code o.status < status_code (to_status p))

-- An announcement that arrives again changes nothing.
pub record_kitchen_progress_again :
    (tenant id : Uuid) (p : KitchenProgress) (db : Db)
    → let db' = (record_kitchen_progress tenant id p db).1 in
      record_kitchen_progress tenant id p db'
      ≡ (ok (if any (order_in_tenant tenant id) db'.orders then unchanged else missing), db')
unfolding record_kitchen_progress move_status
record_kitchen_progress_again tenant id p db =
    let fits = is_movable tenant id (statuses_before p) in
    let put = with_status (to_status p) in
    let once : count_where fits (update_many fits put db.orders) ≡ 0 =
      count_where-update_many fits put db.orders (moved_once tenant id p) in
    let still = update_many_none fits put (update_many fits put db.orders) once in
    rw once (rw still refl)
