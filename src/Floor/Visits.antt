-- ===== src/Floor/Visits.antt =====
-- apps/api/src/modules/floor/adapters/prisma-table-session.repository.ts: opening, moving, closing
-- and cleaning up after a visit. A row lock or a visit lock is not visible here, since commands run
-- one after another.
use merchant_operations_plat.Prelude.{
  ℕ, ◌+◌, max, Bool, true, false, not, ◌&&◌, ◌||◌, Option, none, some, List, [], ◌∷◌, ◌++◌, map,
  Uuid, Text, Instant, ok, err, find, filter, any, ◌==◌, if◌then◌else◌, leb,
}
use merchant_operations_plat.Contracts.Floor.{
  TableSessionStatus, is_in_use, is_closed, FloorRecordStatus,
}
use merchant_operations_plat.Database.Tables.{update_many, count_where}
use merchant_operations_plat.Floor.{
  FloorRow, FloorArea, FloorServiceTable, FloorTableSession, FloorSessionTable, FloorAuditAction,
  FloorEventType, FloorDb, FloorFault, unique_violation, record_not_found, table_taken, Action,
  pure, gets, or_throw, ◌>>=◌, ◌>>◌, throw_if, modify, transaction, new_id, audit, emit,
  check_violation,
}

-- Who gives the command (a guest's has no actor), and the clock of the database.
pub record CommandOrigin : Type 0 where
  pub actor_id : Option Uuid
  pub now : Instant

pub record TableSessionRecord : Type 0 where
  pub cleaned_at : Option Instant
  pub display_number : ℕ
  pub guest_count : ℕ
  pub id : Uuid
  pub needs_cleaning : Bool
  pub opened_at : Instant
  pub status : TableSessionStatus
  pub table_ids : List Uuid

pub record SeatableTable : Type 0 where
  pub area_active : Bool
  pub floor_active : Bool
  pub held : Bool
  pub id : Uuid
  pub label : Text
  pub status : FloorRecordStatus

pub record Seat : Type 0 where
  pub guest_count : ℕ
  pub table_id : Uuid

abbrev pub is_none {ℓ} : {A : Type ℓ} → Option A → Bool
is_none none = true
is_none (some _) = false

-- `detachedAt: null`
abbrev pub is_attached : FloorSessionTable → Bool
is_attached t = is_none t.detached_at

abbrev pub is_of_session : Uuid → Uuid → FloorSessionTable → Bool
is_of_session tenant session t = t.session_id == session && t.tenant_id == tenant

-- The row holds a table.
abbrev pub is_holding : Uuid → Uuid → FloorSessionTable → Bool
is_holding tenant table t = is_attached t && (t.table_id == table && t.tenant_id == tenant)

abbrev pub session_by_id : Uuid → Uuid → FloorTableSession → Bool
session_by_id tenant id s = s.id == id && s.tenant_id == tenant

abbrev pub session_at : Uuid → Uuid → Uuid → FloorTableSession → Bool
session_at tenant outlet id s = s.id == id && (s.outlet_id == outlet && s.tenant_id == tenant)

-- `{ id, outletId, status: { in: ["OPEN", "CLOSING"] }, tenantId }`
abbrev pub is_live : Uuid → Uuid → Uuid → FloorTableSession → Bool
is_live tenant outlet id s = session_at tenant outlet id s && not (is_closed s.status)

-- The tables of a visit, the primary one first.
abbrev pub table_ids : FloorDb → FloorTableSession → List Uuid
table_ids db s =
    let held = filter (λ t. is_attached t && is_of_session s.tenant_id s.id t) db.session_tables in
    map (λ (t : FloorSessionTable). t.table_id)
      (filter (λ t. t.is_primary) held ++ filter (λ t. not t.is_primary) held)

abbrev pub to_session : FloorDb → FloorTableSession → TableSessionRecord
to_session db s = record {
  cleaned_at = s.cleaned_at;
  display_number = s.display_number;
  guest_count = s.guest_count;
  id = s.id;
  needs_cleaning = s.needs_cleaning;
  opened_at = s.opened_at;
  status = s.status;
  table_ids = table_ids db s;
}

abbrev map_session : FloorDb → Option FloorTableSession → Option TableSessionRecord
map_session db none = none
map_session db (some s) = some (to_session db s)

unfoldable pub find_session : Uuid → Uuid → Uuid → FloorDb → Option TableSessionRecord
find_session tenant outlet id db = map_session db (find (session_at tenant outlet id) db.sessions)

abbrev is_active_row : Option FloorRow → Bool
is_active_row none = false
is_active_row (some f) = is_in_use f.status

abbrev area_of : FloorDb → FloorServiceTable → Option FloorArea
area_of db t = find (λ (a : FloorArea). a.id == t.area_id) db.areas

abbrev is_active_area : Option FloorArea → Bool
is_active_area none = false
is_active_area (some a) = is_in_use a.status

abbrev is_active_floor : FloorDb → Option FloorArea → Bool
is_active_floor db none = false
is_active_floor db (some a) = is_active_row (find (λ (f : FloorRow). f.id == a.floor_id) db.floors)

abbrev pub is_table : Uuid → Uuid → Uuid → FloorServiceTable → Bool
is_table tenant outlet id t = t.id == id && (t.outlet_id == outlet && t.tenant_id == tenant)

abbrev pub seatable : FloorDb → FloorServiceTable → SeatableTable
seatable db t = record {
  area_active = is_active_area (area_of db t);
  floor_active = is_active_floor db (area_of db t);
  held = any (is_holding t.tenant_id t.id) db.session_tables;
  id = t.id;
  label = t.label;
  status = t.status;
}

abbrev map_table : FloorDb → Option FloorServiceTable → Option SeatableTable
map_table db none = none
map_table db (some t) = some (seatable db t)

unfoldable pub find_table : Uuid → Uuid → Uuid → FloorDb → Option SeatableTable
find_table tenant outlet id db = map_table db (find (is_table tenant outlet id) db.tables)

-- The two partial unique indexes: a table is held once, and a visit has one primary table.
abbrev pub is_refused : FloorSessionTable → FloorSessionTable → Bool
is_refused new t =
    is_holding new.tenant_id new.table_id t
    || (is_attached t && (t.is_primary && is_of_session new.tenant_id new.session_id t))

-- `floorSessionTable.create` with the role PRIMARY.
abbrev pub primary_row : Uuid → Uuid → Uuid → Uuid → Instant → Uuid → FloorSessionTable
primary_row tenant outlet session table now id = record {
  id = id;
  tenant_id = tenant;
  outlet_id = outlet;
  session_id = session;
  table_id = table;
  is_primary = true;
  attached_at = now;
  detached_at = none;
}

unfoldable pub attach : Uuid → Uuid → Uuid → Uuid → Instant → Action (Unit {0})
attach tenant outlet session table now = do
  id ← new_id
  let row = primary_row tenant outlet session table now id
  taken ← gets (λ db. any (is_refused row) db.session_tables)
  throw_if taken unique_violation
  modify (λ db. record db { session_tables = db.session_tables ++ row ∷ [] })

-- `record`: the audit entry, and the event if there is one.
abbrev pub note : FloorAuditAction → Uuid → Uuid → Uuid → CommandOrigin → Action (Unit {0})
note action tenant outlet id origin = audit (record {
  action = action;
  actor_id = origin.actor_id;
  entity_id = id;
  outlet_id = outlet;
  tenant_id = tenant;
})

abbrev pub announce : FloorEventType → Uuid → Uuid → Uuid → Action (Unit {0})
announce type tenant outlet id =
    emit (record { type = type; aggregate_id = id; outlet_id = outlet; tenant_id = tenant })

-- `aggregate({ _max: { displayNumber } })`
unfoldable pub last_number : Uuid → Uuid → List FloorTableSession → ℕ
last_number tenant outlet [] = 0
last_number tenant outlet (s ∷ ss) =
    let rest = last_number tenant outlet ss in
    if s.outlet_id == outlet && s.tenant_id == tenant then max s.display_number rest else rest

abbrev pub new_session : Uuid → Uuid → Seat → CommandOrigin → ℕ → Uuid → FloorTableSession
new_session tenant outlet seat origin number id = record {
  id = id;
  tenant_id = tenant;
  outlet_id = outlet;
  display_number = number;
  guest_count = seat.guest_count;
  status = TableSessionStatus.opened;
  opened_at = origin.now;
  opened_by = origin.actor_id;
  closed_at = none;
  closed_by = none;
  needs_cleaning = false;
  cleaned_at = none;
}

-- The CHECK on `guest_count` of the table of visits, as the schema of the request has it too.
abbrev pub is_party : ℕ → Bool
is_party guests = leb 1 guests && leb guests 99

unfoldable pub open_transaction : Uuid → Uuid → Seat → CommandOrigin → Action TableSessionRecord
unfolding attach last_number
open_transaction tenant outlet seat origin = do
  last ← gets (λ db. last_number tenant outlet db.sessions)
  id ← new_id
  let session = new_session tenant outlet seat origin (last + 1) id
  throw_if (not (is_party seat.guest_count)) check_violation
  modify (λ db. record db { sessions = db.sessions ++ session ∷ [] })
  attach tenant outlet id seat.table_id origin.now
  note FloorAuditAction.session_open tenant outlet id origin
  announce FloorEventType.session_opened tenant outlet id
  gets (λ db. to_session db session)

-- `if (isUniqueViolation(error)) throw new TableTakenError()`
abbrev pub as_taken : FloorFault → FloorFault
as_taken unique_violation = table_taken
as_taken e = e

abbrev pub or_taken : {A : Type 0} → Action A → Action A
or_taken m db =
    let (r, db') = m db in elim r [ ok a ↦ (ok a, db') | err e ↦ (err (as_taken e), db') ]

unfoldable pub seat_guests : Uuid → Uuid → Seat → CommandOrigin → Action TableSessionRecord
unfolding open_transaction
seat_guests tenant outlet seat origin =
    or_taken (transaction (open_transaction tenant outlet seat origin))

abbrev pub detached : Instant → FloorSessionTable → FloorSessionTable
detached now t = record t { detached_at = some now }

abbrev pub is_row : Uuid → FloorSessionTable → Bool
is_row id t = t.id == id

-- `if (from) await transaction.floorSessionTable.update({ ..., where: { id: from.id } })`
abbrev pub detach_from : Instant → Option FloorSessionTable → Action (Unit {0})
detach_from now none = pure tt
detach_from now (some from) = modify (λ db. record db {
  session_tables = update_many (is_row from.id) (detached now) db.session_tables;
})

abbrev pub is_primary_of : Uuid → Uuid → FloorSessionTable → Bool
is_primary_of tenant session t = is_attached t && (t.is_primary && is_of_session tenant session t)

pub record MovedSession : Type 0 where
  pub from_table_id : Option Uuid
  pub session : TableSessionRecord

abbrev table_of : Option FloorSessionTable → Option Uuid
table_of none = none
table_of (some t) = some t.table_id

unfoldable pub move_live : Uuid → Uuid → Uuid → Uuid → CommandOrigin → Action (Option MovedSession)
unfolding attach
move_live tenant outlet session to origin = do
  from ← gets (λ db. find (is_primary_of tenant session) db.session_tables)
  detach_from origin.now from
  attach tenant outlet session to origin.now
  note FloorAuditAction.session_move tenant outlet session origin
  announce FloorEventType.session_moved tenant outlet session
  row ← gets (λ db. find (session_by_id tenant session) db.sessions)
  found ← or_throw row record_not_found
  moved ← gets (λ db. to_session db found)
  pure (some (record { from_table_id = table_of from; session = moved }))

unfoldable pub move_transaction :
    Uuid → Uuid → Uuid → Uuid → CommandOrigin → Action (Option MovedSession)
unfolding move_live
move_transaction tenant outlet session to origin = do
  live ← gets (λ db. count_where (is_live tenant outlet session) db.sessions)
  if not (live == 1) then pure none else move_live tenant outlet session to origin

unfoldable pub move_guests :
    Uuid → Uuid → Uuid → Uuid → CommandOrigin → Action (Option MovedSession)
unfolding move_transaction
move_guests tenant outlet session to origin =
    or_taken (transaction (move_transaction tenant outlet session to origin))
