-- ===== src/Floor/Runs.antt =====
-- Any sequence of the floor's commands (apps/api/src/modules/floor/application/table-sessions.ts),
-- each of them answered or refused.
pub mod Seating
pub mod Moving
pub mod Leaving
pub mod Cleaning
pub mod Always
pub mod Settled
pub mod Taken
pub mod Opens
use merchant_operations_plat.Prelude.{List, [], ◌∷◌, Uuid}
use merchant_operations_plat.Database.{Db}
use merchant_operations_plat.Floor.{FloorDb}
use merchant_operations_plat.Floor.Visits.{CommandOrigin, Seat}
use merchant_operations_plat.Floor.TableSessions.{
  UpdateFloorPolicy, open_table, move, close, clean, change_policy,
}

-- A close carries the orders and bills of its moment.
pub data Command : Type 0 where
  seat_at : Uuid → Uuid → Seat → CommandOrigin → Command
  move_to : Uuid → Uuid → Uuid → Uuid → CommandOrigin → Command
  let_leave : Db → Uuid → Uuid → Uuid → CommandOrigin → Command
  clean_up : Uuid → Uuid → Uuid → CommandOrigin → Command
  set_rules : Uuid → Uuid → UpdateFloorPolicy → CommandOrigin → Command

unfoldable pub apply : Command → FloorDb → FloorDb
unfolding open_table move close clean change_policy
apply (seat_at tenant outlet input origin) db = (open_table tenant outlet input origin db).1
apply (move_to tenant outlet id table origin) db = (move tenant outlet id table origin db).1
apply (let_leave orders tenant outlet id origin) db = (close orders tenant outlet id origin db).1
apply (clean_up tenant outlet table origin) db = (clean tenant outlet table origin db).1
apply (set_rules tenant outlet change origin) db = (change_policy tenant outlet change origin db).1

unfoldable pub run : List Command → FloorDb → FloorDb
unfolding apply
run [] db = db
run (c ∷ cs) db = run cs (apply c db)
