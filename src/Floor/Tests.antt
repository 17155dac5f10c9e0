-- ===== src/Floor/Tests.antt =====
-- The theorems on floors at one outlet with a table for the guests of a visit.
use merchant_operations_plat.Contracts.Orders.{OrderSource, dine_in}
use merchant_operations_plat.OrderIntake.Service.{submit_table_order}
use merchant_operations_plat.Floor.Guard.{GoesOn, guard_of, submit_table_order-GoesOn}
use merchant_operations_plat.OrderIntake.Samples.{tea_menu, teas, cashier, tea_order}
use merchant_operations_plat.Prelude.{
  ℕ, ◌≡◌, ◌⊎◌, ◌↔◌, inl, refl, arith, true, some, List, [], ◌∷◌, Uuid, ok, All, any, find,
}
use merchant_operations_plat.Prelude.Int.{pos, ◌*ℤ◌, ◌+ℤ◌}
use merchant_operations_plat.Billing.Store.{upsert_counter}
use merchant_operations_plat.Contracts.Floor.{FloorRecordStatus}
use merchant_operations_plat.Database.{Db, Order}
use merchant_operations_plat.Database.Samples.{sample_order, paid_shop, unpaid_shop}
use merchant_operations_plat.Floor.{FloorServiceTable, FloorTableSession, FloorDb}
use merchant_operations_plat.Floor.Layout.{GridSize, PlacedTable, layout_issues}
use merchant_operations_plat.Floor.Layout.Cells.{IsLaidOut, layout_issues_iff}
use merchant_operations_plat.Floor.Visits.{
  CommandOrigin, TableSessionRecord, Seat, is_holding, session_at, to_session, primary_row,
  new_session,
}
use merchant_operations_plat.Floor.TableSessions.{table_status, open_table, close}
use merchant_operations_plat.Floor.Seated.{IsSeated}
use merchant_operations_plat.Floor.Runs.{Command, seat_at, move_to, clean_up, run}
use merchant_operations_plat.Floor.Runs.Always.{run-IsSeated}
use merchant_operations_plat.Floor.Runs.Settled.{IsDone, IsOver, close-IsOver}
use merchant_operations_plat.Floor.Runs.Taken.{IsTaken, held_table-IsTaken}
use merchant_operations_plat.Floor.Runs.Opens.{open_table-ok}

abbrev grid : GridSize
grid = record { cols = 10; rows = 8 }

abbrev table_at : ℕ → ℕ → Uuid → PlacedTable
table_at x y id = record { grid_h = 2; grid_w = 4; grid_x = pos x; grid_y = pos y; id = id }

layout_issues_iff_example :
    (layout_issues grid (table_at 0 0 1 ∷ table_at 4 0 2 ∷ []) ≡ [])
    ↔ IsLaidOut grid (table_at 0 0 1 ∷ table_at 4 0 2 ∷ [])
layout_issues_iff_example =
    layout_issues_iff grid (table_at 0 0 1 ∷ table_at 4 0 2 ∷ []) (omega arith)

abbrev waiter : CommandOrigin
waiter = record { actor_id = some 9; now = 100 }

abbrev window_table : FloorServiceTable
window_table = record {
  id = 20;
  tenant_id = 1;
  outlet_id = 2;
  area_id = 10;
  label = 30;
  status = FloorRecordStatus.active;
}

abbrev morning : FloorDb
morning = record {
  next_id = 50;
  floors = record { id = 5; status = FloorRecordStatus.active } ∷ [];
  areas = record { id = 10; floor_id = 5; status = FloorRecordStatus.active } ∷ [];
  tables = window_table ∷ [];
  sessions = [];
  session_tables = [];
  policies = [];
  audit_log = [];
  outbox = [];
}

morning-IsSeated : IsSeated morning
morning-IsSeated = record {
  unique = λ t i. omega arith;
  fresh = λ t i h. refl;
  sound = tt;
  single = λ t i. omega arith;
  held = tt;
}

abbrev two_guests : Seat
two_guests = record { guest_count = 2; table_id = 20 }

-- The second party finds the table taken.
abbrev lunch : List Command
lunch =
    seat_at 1 2 two_guests waiter
    ∷ seat_at 1 2 two_guests waiter
    ∷ move_to 1 2 50 20 waiter
    ∷ clean_up 1 2 20 waiter
    ∷ []

run-IsSeated_example : IsSeated (run lunch morning)
run-IsSeated_example = run-IsSeated lunch morning morning-IsSeated

open_table-ok_example :
    (r : TableSessionRecord) × ((open_table 1 2 two_guests waiter morning).0 ≡ ok r)
    × (any (is_holding 1 20) (open_table 1 2 two_guests waiter morning).1.session_tables ≡ true)
open_table-ok_example =
    open_table-ok 1 2 two_guests waiter morning morning-IsSeated (omega arith) (omega arith)
      (record { row = window_table; there = refl; seats = refl })

abbrev noon : FloorDb
noon = record morning {
  next_id = 52;
  sessions = new_session 1 2 two_guests waiter 1 50 ∷ [];
  session_tables = primary_row 1 2 50 20 100 51 ∷ [];
}

noon-IsSeated : IsSeated noon
noon-IsSeated = record {
  unique = λ t i. ground arith;
  fresh = λ t i h. ground arith;
  sound = (refl, tt);
  single = λ t i. ground arith;
  held = (refl, tt);
}

held_table-IsTaken_example :
    (s : FloorTableSession) × (find (session_at 1 2 50) noon.sessions ≡ some s)
    × IsTaken (table_status FloorRecordStatus.active (some (to_session noon s)))
held_table-IsTaken_example =
    held_table-IsTaken noon (primary_row 1 2 50 20 100 51) FloorRecordStatus.active noon-IsSeated
      (inl refl) refl

-- The visit's one order is paid.
abbrev settled_shop : Db
settled_shop = record paid_shop { orders = record sample_order { table_session_id = some 50 } ∷ [] }

close-IsOver_example :
    ((close settled_shop 1 2 50 waiter noon).1 ≡ noon)
    ⊎ (All (IsDone settled_shop 1 2 50) settled_shop.orders
        × IsOver 1 2 50 noon (close settled_shop 1 2 50 waiter noon).1)
close-IsOver_example = close-IsOver settled_shop 1 2 50 waiter noon

-- The guests of the visit order two teas.
abbrev visit_teas : Order
visit_teas = record tea_order { order_type = dine_in; table_session_id = some 50 }

teas-taken :
    (submit_table_order
      (guard_of noon 1 2)
      tea_menu
      1
      2
      50
      (teas 2)
      51
      cashier
      OrderSource.pos
      unpaid_shop).0
    ≡ ok visit_teas
unfolding submit_table_order guard_of upsert_counter ◌*ℤ◌ ◌+ℤ◌
teas-taken = refl

submit_table_order-GoesOn_example : GoesOn noon 1 2 50
submit_table_order-GoesOn_example =
    submit_table_order-GoesOn noon tea_menu 1 2 50 (teas 2) 51 cashier OrderSource.pos unpaid_shop
      visit_teas refl teas-taken
