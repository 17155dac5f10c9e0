-- ===== src/Floor/Runs/Opens.antt =====
-- Guests are seated at a table that is free (`open` of table-sessions.ts).
use merchant_operations_plat.Prelude.{
  suc, ◌≤◌, ◌≡◌, inl, inr, refl, sym, ap, ◌∙◌, true, false, ◌&&◌, some, List, [], ◌∷◌, Uuid, Result,
  ok, arith, All, any, find, ==_refl, Bool-cases, Result-cases,
}
use merchant_operations_plat.Database.Tables.{count_where, find_holds}
use merchant_operations_plat.Floor.{
  FloorServiceTable, FloorTableSession, FloorSessionTable, FloorDb, FloorFault,
}
use merchant_operations_plat.Floor.Visits.{
  CommandOrigin, TableSessionRecord, Seat, is_attached, is_holding, is_refused, is_of_session,
  session_by_id, is_table, seatable, find_table, primary_row, attach, is_party, open_transaction,
  seat_guests,
}
use merchant_operations_plat.Floor.TableSessions.{is_unseatable, require_free, open_table}
use merchant_operations_plat.Floor.Seated.{
  any-append_last, count_where-any_pos, is_holder, IsHeld, IsSeated,
}
use merchant_operations_plat.Floor.Runs.Seating.{open_transaction-Opened}

-- The next identifier is no visit's, so no row is of it.
none_of_next :
    (sessions : List FloorTableSession) (tenant id : Uuid) (rows : List FloorSessionTable)
    → count_where (session_by_id tenant id) sessions ≡ 0
    → All (IsHeld sessions) rows
    → any (λ t. is_attached t && (t.is_primary && is_of_session tenant id t)) rows ≡ false
none_of_next sessions tenant id [] zero h = refl
none_of_next sessions tenant id (t ∷ ts) zero h =
    elim (Bool-cases (is_attached t && is_of_session tenant id t)) [
      | inr e ↦ ground (arith, none_of_next sessions tenant id ts zero h.1)
      | inl e ↦
          let some_holder : any (is_holder t) sessions ≡ true = ground (arith, h.0) in
          let more =
            count_where-any_pos (is_holder t) (session_by_id tenant id) sessions
              (λ s k. ground arith) some_holder in
          absurd (omega (arith, zero, more))
    ]

refused_split :
    (row : FloorSessionTable) (rows : List FloorSessionTable)
    → any (is_holding row.tenant_id row.table_id) rows ≡ false
    → any
        (λ t. is_attached t && (t.is_primary && is_of_session row.tenant_id row.session_id t))
        rows
      ≡ false
    → any (is_refused row) rows ≡ false
refused_split row [] h k = refl
refused_split row (t ∷ ts) h k = ground (arith, refused_split row ts)

open_transaction-ok :
    (tenant outlet : Uuid) (seat : Seat) (origin : CommandOrigin) (db : FloorDb)
    → 1 ≤ seat.guest_count
    → seat.guest_count ≤ 99
    → any
        (is_refused
          (primary_row tenant outlet db.next_id seat.table_id origin.now (suc db.next_id)))
        db.session_tables
      ≡ false
    → (r : TableSessionRecord) × ((open_transaction tenant outlet seat origin db).0 ≡ ok r)
unfolding open_transaction attach
open_transaction-ok tenant outlet seat origin db least most free =
    let party : is_party seat.guest_count ≡ true = ground arith in
    elim (Result-cases ((open_transaction tenant outlet seat origin db).0)) [
      | inl answer ↦ answer
      | inr (e, h) ↦ absurd (ground arith)
    ]

-- A table of the outlet that is in use, in an area and on a floor in use, and held by no one.
pub record IsFree (tenant outlet table : Uuid) (db : FloorDb) : Type 0 where
  pub row : FloorServiceTable
  pub there : find (is_table tenant outlet table) db.tables ≡ some row
  pub seats : is_unseatable (seatable db row) ≡ false

IsFree-free :
    (tenant outlet table : Uuid) (db : FloorDb)
    → IsFree tenant outlet table db
    → any (is_holding tenant table) db.session_tables ≡ false
IsFree-free tenant outlet table db free =
    let own = find_holds (is_table tenant outlet table) db.tables free.there in
    let t : free.row.tenant_id ≡ tenant = ground arith in
    let i : free.row.id ≡ table = ground arith in
    let held : any (is_holding free.row.tenant_id free.row.id) db.session_tables ≡ false =
      ground (arith, free.seats) in
    rw (sym t) (rw (sym i) held)

require_free-ok :
    (tenant outlet table : Uuid) (db : FloorDb)
    → IsFree tenant outlet table db
    → require_free tenant outlet table db ≡ (ok tt, db)
unfolding require_free find_table
require_free-ok tenant outlet table db free = ground (arith, free.there, free.seats)

own_row :
    (tenant outlet session table : Uuid) (origin : CommandOrigin) (id : Uuid)
    → is_holding tenant table (primary_row tenant outlet session table origin.now id) ≡ true
own_row tenant outlet session table origin id = rw (==_refl table) (==_refl tenant)

open_table_lem :
    (tenant outlet : Uuid) (seat : Seat) (origin : CommandOrigin) (db : FloorDb)
    (r : TableSessionRecord)
    → require_free tenant outlet seat.table_id db ≡ (ok tt, db)
    → (open_transaction tenant outlet seat origin db).0 ≡ ok r
    → open_table tenant outlet seat origin db
      ≡ (ok r, (open_transaction tenant outlet seat origin db).1)
unfolding open_table seat_guests
open_table_lem tenant outlet seat origin db r free h = ground arith

-- Where every table has one visit at most and a visit that may hold it, from 1 to 99 guests are
-- seated at a table that is in use, in an area and on a floor in use, and held by no one: the command answers, and
-- then the table is held.
pub open_table-ok :
    (tenant outlet : Uuid) (seat : Seat) (origin : CommandOrigin) (db : FloorDb)
    → IsSeated db
    → 1 ≤ seat.guest_count
    → seat.guest_count ≤ 99
    → IsFree tenant outlet seat.table_id db
    → (r : TableSessionRecord) × ((open_table tenant outlet seat origin db).0 ≡ ok r)
      × (any
            (is_holding tenant seat.table_id)
            (open_table tenant outlet seat origin db).1.session_tables
          ≡ true)
open_table-ok tenant outlet seat origin db v least most free =
    let row = primary_row tenant outlet db.next_id seat.table_id origin.now (suc db.next_id) in
    let fits =
      refused_split row db.session_tables (IsFree-free tenant outlet seat.table_id db free) (
        none_of_next db.sessions tenant db.next_id db.session_tables
          (v.fresh tenant db.next_id (omega arith)) v.held) in
    let (r, h) = open_transaction-ok tenant outlet seat origin db least most fits in
    let opened =
      open_table_lem tenant outlet seat origin db r
        (require_free-ok tenant outlet seat.table_id db free) h in
    let ran : open_transaction tenant outlet seat origin db
        ≡ (ok r, (open_transaction tenant outlet seat origin db).1) =
      ground arith in
    let rows = (open_transaction-Opened tenant outlet seat origin db ran).1 in
    (
      r,
      ap (λ x. x.0) opened,
      ap
            (λ (x : Result FloorFault TableSessionRecord × FloorDb).
              any (is_holding tenant seat.table_id) x.1.session_tables)
            opened
          ∙ (ap (any (is_holding tenant seat.table_id)) rows
              ∙ any-append_last (is_holding tenant seat.table_id) db.session_tables row
                  (own_row tenant outlet db.next_id seat.table_id origin (suc db.next_id))),
    )
