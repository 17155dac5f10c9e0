-- ===== src/Floor/TableSessions.antt =====
-- apps/api/src/modules/floor/application/table-sessions.ts and table-visit-guard.ts, and
-- domain/table-status.ts: seating guests, moving them, letting them go once everything is paid, and
-- cleaning up after. Orders and bills are read from the tables of the other components.
use merchant_operations_plat.Prelude.{
  Bool, true, not, ◌&&◌, ◌||◌, Option, none, some, List, Uuid, Text, ok, err, filter, any, ◌==◌,
  if◌then◌else◌,
}
use merchant_operations_plat.Contracts.Floor.{
  FloorRecordStatus, FloorTableStatus, TableSessionStatus, is_in_use, is_closed,
}
use merchant_operations_plat.Contracts.Orders.{is_canceled, is_order_approved}
use merchant_operations_plat.Database.{Db, Order}
use merchant_operations_plat.Billing.Store.{in_visit, is_order_paid}
use merchant_operations_plat.Floor.{
  FloorPolicy, FloorFault, table_taken, floor_table_not_found, table_not_available,
  table_not_cleaning, table_session_not_found, table_session_closed, table_session_unpaid,
  self_order_pending, Action, pure, throw, gets, or_throw, ◌>>=◌, ◌>>◌, throw_if,
}
use merchant_operations_plat.Floor.Visits.{
  CommandOrigin, TableSessionRecord, SeatableTable, Seat, MovedSession, is_none, find_session,
  find_table, seat_guests, move_guests,
}
use merchant_operations_plat.Floor.Closing.{close_visit, clean_table, policy, set_policy}

abbrev unheld_status : FloorRecordStatus → FloorTableStatus
unheld_status FloorRecordStatus.inactive = FloorTableStatus.set_aside
unheld_status FloorRecordStatus.active = FloorTableStatus.available

abbrev held_status : FloorRecordStatus → TableSessionStatus → Bool → FloorTableStatus
held_status status TableSessionStatus.opened dirty = FloorTableStatus.occupied
held_status status TableSessionStatus.leaving dirty = FloorTableStatus.closing
held_status status TableSessionStatus.closed dirty =
    if dirty then FloorTableStatus.cleaning else unheld_status status

-- `tableStatus`, of a table and the visit that holds it.
unfoldable pub table_status : FloorRecordStatus → Option TableSessionRecord → FloorTableStatus
table_status status none = unheld_status status
table_status status (some s) =
    held_status status s.status (s.needs_cleaning && is_none s.cleaned_at)

abbrev pub is_unseatable : SeatableTable → Bool
is_unseatable t = t.held || (not (is_in_use t.status) || (not t.area_active || not t.floor_active))

-- The checks of `open` and `move` on the table.
unfoldable pub require_free : Uuid → Uuid → Uuid → Action (Unit {0})
unfolding find_table
require_free tenant outlet table = do
  row ← gets (find_table tenant outlet table)
  found ← or_throw row floor_table_not_found
  throw_if (is_unseatable found) table_not_available

-- `if (error instanceof TableTakenError) throw notAvailable()`
abbrev pub as_not_available : FloorFault → FloorFault
as_not_available table_taken = table_not_available
as_not_available e = e

abbrev pub or_not_available : {A : Type 0} → Action A → Action A
or_not_available m db =
    let (r, db') = m db in elim r [ ok a ↦ (ok a, db') | err e ↦ (err (as_not_available e), db') ]

unfoldable pub open_table : Uuid → Uuid → Seat → CommandOrigin → Action TableSessionRecord
unfolding require_free seat_guests
open_table tenant outlet input origin = do
  require_free tenant outlet input.table_id
  or_not_available (seat_guests tenant outlet input origin)

-- `find`
unfoldable pub get : Uuid → Uuid → Uuid → Action TableSessionRecord
unfolding find_session
get tenant outlet id = do
  row ← gets (find_session tenant outlet id)
  or_throw row table_session_not_found

abbrev moved_or_closed : Option MovedSession → Action TableSessionRecord
moved_or_closed none = throw table_session_closed
moved_or_closed (some m) = pure m.session

unfoldable pub move : Uuid → Uuid → Uuid → Uuid → CommandOrigin → Action TableSessionRecord
unfolding get require_free move_guests
move tenant outlet id table origin = do
  session ← get tenant outlet id
  throw_if (is_closed session.status) table_session_closed
  require_free tenant outlet table
  or_not_available (do moved ← move_guests tenant outlet id table origin; moved_or_closed moved)

-- `listBySession`, without the canceled orders.
abbrev pub orders_of : Db → Uuid → Uuid → Uuid → List Order
orders_of db tenant outlet visit =
    filter (λ o. not (is_canceled o.status))
      (filter
        (λ o. o.outlet_id == outlet && (in_visit visit o.table_session_id && o.tenant_id == tenant))
        db.orders)

unfoldable pub ensure_settled : Db → Uuid → Uuid → Uuid → Action (Unit {0})
ensure_settled db tenant outlet visit = do
  let orders = orders_of db tenant outlet visit
  throw_if (any (λ o. not (is_order_approved o.moderation_status)) orders) self_order_pending
  throw_if (any (λ o. not (is_order_paid tenant o.id db)) orders) table_session_unpaid

abbrev pub or_closed : Option TableSessionRecord → Action TableSessionRecord
or_closed none = throw table_session_closed
or_closed (some s) = pure s

-- The part of `close` that follows the first check of the orders.
abbrev pub close_settled : Db → Uuid → Uuid → Uuid → CommandOrigin → Action TableSessionRecord
close_settled db tenant outlet id origin = do
  rules ← gets (policy tenant outlet)
  closed ←
      close_visit tenant outlet id rules.cleaning_after_close origin
        (ensure_settled db tenant outlet id)
  or_closed closed

abbrev pub close_found :
    Db → Uuid → Uuid → Uuid → CommandOrigin → TableSessionRecord → Action TableSessionRecord
close_found db tenant outlet id origin session = do
  throw_if (is_closed session.status) table_session_closed
  ensure_settled db tenant outlet id
  close_settled db tenant outlet id origin

unfoldable pub close : Db → Uuid → Uuid → Uuid → CommandOrigin → Action TableSessionRecord
unfolding get ensure_settled close_visit policy
close db tenant outlet id origin = do
  session ← get tenant outlet id
  close_found db tenant outlet id origin session

unfoldable pub clean : Uuid → Uuid → Uuid → CommandOrigin → Action (Unit {0})
unfolding clean_table
clean tenant outlet table origin = do
  cleaned ← clean_table tenant outlet table origin
  throw_if (is_none cleaned) table_not_cleaning

-- What is given of a new policy; a note can be taken away.
pub record UpdateFloorPolicy : Type 0 where
  pub cleaning_after_close : Option Bool
  pub guest_payment_note : Option (Option Text)

abbrev or_current {ℓ} : {A : Type ℓ} → Option A → A → A
or_current none a = a
or_current (some x) _ = x

unfoldable pub change_policy : Uuid → Uuid → UpdateFloorPolicy → CommandOrigin → Action FloorPolicy
unfolding set_policy policy
change_policy tenant outlet change origin = do
  current ← gets (policy tenant outlet)
  set_policy tenant outlet
      (record {
        cleaning_after_close = or_current change.cleaning_after_close current.cleaning_after_close;
        guest_payment_note = or_current change.guest_payment_note current.guest_payment_note;
      })
      origin

abbrev is_shut : Option TableSessionRecord → Bool
is_shut none = true
is_shut (some s) = is_closed s.status

-- `TableVisitGuard.ensureOpen`
unfoldable pub ensure_open : Uuid → Uuid → Uuid → Action (Unit {0})
unfolding find_session
ensure_open tenant outlet visit = do
  row ← gets (find_session tenant outlet visit)
  throw_if (is_shut row) table_session_closed
