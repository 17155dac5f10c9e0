-- ===== src/Floor/Runs/Seating.antt =====
-- Seating guests keeps every table with at most one visit.
use merchant_operations_plat.Prelude.{
  suc, ◌+◌, ◌≤◌, ◌≡◌, ◌⊎◌, inl, inr, refl, sym, ◌∙◌, true, false, List, [], ◌∷◌, ◌++◌, Uuid, ok,
  arith, any, ==_refl, Bool-cases, Result-cases,
}
use merchant_operations_plat.Database.Tables.{count_where, count_where-append}
use merchant_operations_plat.Floor.{FloorTableSession, FloorSessionTable, FloorDb}
use merchant_operations_plat.Floor.Visits.{
  CommandOrigin, TableSessionRecord, Seat, is_holding, is_refused, session_by_id, primary_row,
  new_session, last_number, attach, is_party, open_transaction, seat_guests,
}
use merchant_operations_plat.Floor.TableSessions.{require_free, open_table}
use merchant_operations_plat.Floor.Seated.{
  All-map, All-append, any-append, any-append_last, is_holder, IsHeld, is_sound, IsSeated,
}

-- What an attached row adds.
abbrev pub Attached : FloorSessionTable → FloorDb → FloorDb → Type 0
Attached row db db' =
    (any (is_refused row) db.session_tables ≡ false)
    × (db'.session_tables ≡ db.session_tables ++ row ∷ [])
    × (db'.sessions ≡ db.sessions)
    × (db'.next_id ≡ suc db.next_id)

pub attach-Attached :
    (tenant outlet session table : Uuid) (origin : CommandOrigin) (db : FloorDb) {u : Unit {0}}
    {db' : FloorDb}
    → attach tenant outlet session table origin.now db ≡ (ok u, db')
    → Attached (primary_row tenant outlet session table origin.now db.next_id) db db'
unfolding attach
attach-Attached tenant outlet session table origin db {u} {db'} e =
    let row = primary_row tenant outlet session table origin.now db.next_id in
    elim (Bool-cases (any (is_refused row) db.session_tables)) [
      | inl taken ↦ absurd (ground arith)
      | inr free ↦ ground arith
    ]

-- A table that a row may be attached to was free.
refused-free :
    (row : FloorSessionTable) (rows : List FloorSessionTable)
    → any (is_refused row) rows ≡ false
    → count_where (is_holding row.tenant_id row.table_id) rows ≡ 0
refused-free row [] h = refl
refused-free row (t ∷ ts) h = ground (arith, refused-free row ts)

same_table :
    (tenant table : Uuid) (row : FloorSessionTable) (rows : List FloorSessionTable)
    → is_holding tenant table row ≡ true
    → count_where (is_holding row.tenant_id row.table_id) rows
      ≡ count_where (is_holding tenant table) rows
same_table tenant table row rows h =
    let a : row.tenant_id ≡ tenant = ground arith in
    let b : row.table_id ≡ table = ground arith in rw a (rw b refl)

pub append_single :
    (row : FloorSessionTable) (rows : List FloorSessionTable)
    → any (is_refused row) rows ≡ false
    → ((tenant table : Uuid) → count_where (is_holding tenant table) rows ≤ 1)
    → (tenant table : Uuid) → count_where (is_holding tenant table) (rows ++ row ∷ []) ≤ 1
append_single row rows free single tenant table =
    let count = count_where-append (is_holding tenant table) rows row in
    elim (Bool-cases (is_holding tenant table row)) [
      | inr e ↦ ground (arith, single tenant table)
      | inl e ↦
          let zero = sym (same_table tenant table row rows e) ∙ refused-free row rows free in
          ground arith
    ]

abbrev pub Opened : Uuid → Uuid → Seat → CommandOrigin → FloorDb → FloorDb → Type 0
Opened tenant outlet seat origin db db' =
    let session =
      new_session tenant outlet seat origin (last_number tenant outlet db.sessions + 1)
        db.next_id in
    let row = primary_row tenant outlet db.next_id seat.table_id origin.now (suc db.next_id) in
    (any (is_refused row) db.session_tables ≡ false)
    × (db'.session_tables ≡ db.session_tables ++ row ∷ [])
    × (db'.sessions ≡ db.sessions ++ session ∷ [])
    × (db'.next_id ≡ suc (suc db.next_id))

pub open_transaction-Opened :
    (tenant outlet : Uuid) (seat : Seat) (origin : CommandOrigin) (db : FloorDb)
    {r : TableSessionRecord} {db' : FloorDb}
    → open_transaction tenant outlet seat origin db ≡ (ok r, db')
    → Opened tenant outlet seat origin db db'
unfolding open_transaction attach
open_transaction-Opened tenant outlet seat origin db {r} {db'} e =
    let row = primary_row tenant outlet db.next_id seat.table_id origin.now (suc db.next_id) in
    elim (Bool-cases (is_party seat.guest_count)) [
      | inr refused ↦ absurd (ground arith)
      | inl party ↦ elim (Bool-cases (any (is_refused row) db.session_tables)) [
        | inl taken ↦ absurd (ground arith)
        | inr free ↦ ground arith
      ]
    ]

-- The visit that was opened holds its table.
own_holder :
    (tenant outlet id table next number : Uuid) (seat : Seat) (origin : CommandOrigin)
    → is_holder
        (primary_row tenant outlet id table origin.now next)
        (new_session tenant outlet seat origin number id)
      ≡ true
own_holder tenant outlet id table next number seat origin =
    rw (==_refl id) (rw (==_refl outlet) (rw (==_refl tenant) refl))

pub Opened-IsSeated :
    (tenant outlet : Uuid) (seat : Seat) (origin : CommandOrigin) (db db' : FloorDb)
    → IsSeated db
    → Opened tenant outlet seat origin db db'
    → IsSeated db'
Opened-IsSeated tenant outlet seat origin db db' v (free, rows, sessions, next) =
    let session =
      new_session tenant outlet seat origin (last_number tenant outlet db.sessions + 1)
        db.next_id in
    let row = primary_row tenant outlet db.next_id seat.table_id origin.now (suc db.next_id) in
    record {
      unique = λ t i. rw sessions (
          grind (
            arith,
            v.unique t i,
            v.fresh t i,
            count_where-append (session_by_id t i) db.sessions session,
          ));
      fresh = λ t i h.
          rw sessions (
            grind (arith, v.fresh t i, count_where-append (session_by_id t i) db.sessions session));
      sound = rw sessions (All-append (λ s. is_sound s ≡ true) db.sessions session v.sound refl);
      single = rw rows (append_single row db.session_tables free v.single);
      held =
          rw (rows, sessions)
            (All-append (IsHeld (db.sessions ++ session ∷ [])) db.session_tables row
              (All-map (IsHeld db.sessions) (IsHeld (db.sessions ++ session ∷ [])) db.session_tables
                (λ t h. held_later t db.sessions (session ∷ []) h) v.held)
              (any-append_last (is_holder row) db.sessions session (
                own_holder tenant outlet db.next_id seat.table_id (suc db.next_id)
                  (last_number tenant outlet db.sessions + 1) seat origin)));
    }
  where
    held_later :
        (t : FloorSessionTable) (xs ys : List FloorTableSession) → IsHeld xs t → IsHeld (xs ++ ys) t
    held_later t xs ys h = ground (arith, any-append (is_holder t) xs ys)

-- Seating guests writes a visit and its table, or nothing.
open_table-cases :
    (tenant outlet : Uuid) (seat : Seat) (origin : CommandOrigin) (db : FloorDb)
    → ((r : TableSessionRecord) × (open_transaction tenant outlet seat origin db
          ≡ (ok r, (open_table tenant outlet seat origin db).1)))
      ⊎ ((open_table tenant outlet seat origin db).1 ≡ db)
unfolding open_table seat_guests require_free
open_table-cases tenant outlet seat origin db =
    elim (Result-cases ((require_free tenant outlet seat.table_id db).0)) [
      | inr (e, h) ↦ inr (ground arith)
      | inl (u, h) ↦ elim (Result-cases ((open_transaction tenant outlet seat origin db).0)) [
        | inl (r, g) ↦ inl (r, ground arith)
        | inr (e, g) ↦ inr (ground arith)
      ]
    ]

pub open_table-IsSeated :
    (tenant outlet : Uuid) (seat : Seat) (origin : CommandOrigin) (db : FloorDb)
    → IsSeated db
    → IsSeated (open_table tenant outlet seat origin db).1
open_table-IsSeated tenant outlet seat origin db v =
    elim (open_table-cases tenant outlet seat origin db) [
      | inl (r, e) ↦
          Opened-IsSeated tenant outlet seat origin db _ v
            (open_transaction-Opened tenant outlet seat origin db e)
      | inr same ↦ rw same v
    ]
