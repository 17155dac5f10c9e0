-- ===== src/Floor/Runs/Moving.antt =====
-- Moving guests keeps every table with at most one visit.
use merchant_operations_plat.Prelude.{
  suc, ◌≤◌, ◌≡◌, ◌⊎◌, inl, inr, refl, ◌∙◌, Bool, true, false, Option, none, some, List, [], ◌∷◌,
  ◌++◌, Uuid, ok, arith, All, any, find, ◌==◌, Bool-cases, Result-cases, Option-cases,
}
use merchant_operations_plat.Contracts.Floor.{is_closed}
use merchant_operations_plat.Database.Tables.{update_many, count_where, count_where-update_many_le}
use merchant_operations_plat.Floor.{FloorTableSession, FloorSessionTable, FloorDb}
use merchant_operations_plat.Floor.Visits.{
  CommandOrigin, MovedSession, is_holding, is_refused, is_row, is_live, detached, is_primary_of,
  session_by_id, primary_row, attach, move_live, move_transaction, move_guests,
}
use merchant_operations_plat.Floor.TableSessions.{require_free, get, move}
use merchant_operations_plat.Floor.Seated.{
  All-update_many, All-append, any-All, any-count_where, is_holder, IsHeld, is_sound, IsSeated,
}
use merchant_operations_plat.Floor.Runs.Seating.{append_single}

-- The rows of the tables while one is let go of: as they were, or one detached.
abbrev rows_from :
    CommandOrigin → Option FloorSessionTable → List FloorSessionTable → List FloorSessionTable
rows_from origin none rows = rows
rows_from origin (some from) rows = update_many (is_row from.id) (detached origin.now) rows

abbrev Moved : Uuid → Uuid → Uuid → Uuid → CommandOrigin → FloorDb → FloorDb → Type 0
Moved tenant outlet session to origin db db' =
    let row = primary_row tenant outlet session to origin.now db.next_id in
    let rows =
      rows_from origin (find (is_primary_of tenant session) db.session_tables) db.session_tables in
    (any (is_refused row) rows ≡ false)
    × (db'.session_tables ≡ rows ++ row ∷ [])
    × (db'.sessions ≡ db.sessions)
    × (db'.next_id ≡ suc db.next_id)

move_live-Moved :
    (tenant outlet session to : Uuid) (origin : CommandOrigin) (db : FloorDb)
    {r : Option MovedSession} {db' : FloorDb}
    → move_live tenant outlet session to origin db ≡ (ok r, db')
    → Moved tenant outlet session to origin db db'
unfolding move_live attach
move_live-Moved tenant outlet session to origin db {r} {db'} e =
    let row = primary_row tenant outlet session to origin.now db.next_id in
    elim (Option-cases (find (is_primary_of tenant session) db.session_tables)) [
      | inl n ↦ elim (Bool-cases (any (is_refused row) db.session_tables)) [
        | inl taken ↦ absurd (ground arith)
        | inr free ↦ elim (Option-cases (find (session_by_id tenant session) db.sessions)) [
          | inl lost ↦ absurd (ground arith)
          | inr (s, found) ↦ ground arith
        ]
      ]
      | inr (from, f) ↦
          elim (Bool-cases (
            any (is_refused row)
              (update_many (is_row from.id) (detached origin.now) db.session_tables))) [
                | inl taken ↦ absurd (ground arith)
                | inr free ↦ elim (Option-cases (find (session_by_id tenant session) db.sessions)) [
                  | inl lost ↦ absurd (ground arith)
                  | inr (s, found) ↦ ground arith
                ]
              ]
    ]

detach-IsHeld :
    (sessions : List FloorTableSession) (p : FloorSessionTable → Bool) (origin : CommandOrigin)
    (rows : List FloorSessionTable)
    → All (IsHeld sessions) rows
    → All (IsHeld sessions) (update_many p (detached origin.now) rows)
detach-IsHeld sessions p origin rows h =
    All-update_many p (detached origin.now) (IsHeld sessions) (IsHeld sessions) rows
      (λ t held hit. refl) (λ t held miss. held) h

pub detach_single :
    (p : FloorSessionTable → Bool) (origin : CommandOrigin) (rows : List FloorSessionTable)
    → ((tenant table : Uuid) → count_where (is_holding tenant table) rows ≤ 1)
    → (tenant table : Uuid)
    → count_where (is_holding tenant table) (update_many p (detached origin.now) rows) ≤ 1
detach_single p origin rows single tenant table = omega (
  arith,
  single tenant table,
  count_where-update_many_le (is_holding tenant table) p (detached origin.now) rows
      (λ t h. absurd (ground arith)),
)

rows_from-IsHeld :
    (sessions : List FloorTableSession) (origin : CommandOrigin) (from : Option FloorSessionTable)
    (rows : List FloorSessionTable)
    → All (IsHeld sessions) rows
    → All (IsHeld sessions) (rows_from origin from rows)
rows_from-IsHeld sessions origin none rows h = h
rows_from-IsHeld sessions origin (some from) rows h =
    detach-IsHeld sessions (is_row from.id) origin rows h

rows_from_single :
    (origin : CommandOrigin) (from : Option FloorSessionTable) (rows : List FloorSessionTable)
    → ((tenant table : Uuid) → count_where (is_holding tenant table) rows ≤ 1)
    → (tenant table : Uuid) → count_where (is_holding tenant table) (rows_from origin from rows) ≤ 1
rows_from_single origin none rows single = single
rows_from_single origin (some from) rows single = detach_single (is_row from.id) origin rows single

-- A visit that goes on may hold a table.
live_holder :
    (tenant outlet session to id : Uuid) (origin : CommandOrigin)
    (sessions : List FloorTableSession)
    → All (λ s. is_sound s ≡ true) sessions
    → count_where (is_live tenant outlet session) sessions ≡ 1
    → any (is_holder (primary_row tenant outlet session to origin.now id)) sessions ≡ true
live_holder tenant outlet session to id origin sessions sound one =
    any-All (is_live tenant outlet session) is_sound
      (is_holder (primary_row tenant outlet session to origin.now id)) sessions
      (λ s live ok. ground arith)
      (any-count_where (is_live tenant outlet session) sessions (omega (arith, one))) sound

Moved-IsSeated :
    (tenant outlet session to : Uuid) (origin : CommandOrigin) (db db' : FloorDb)
    → IsSeated db
    → count_where (is_live tenant outlet session) db.sessions ≡ 1
    → Moved tenant outlet session to origin db db'
    → IsSeated db'
Moved-IsSeated tenant outlet session to origin db db' v live (free, rows, sessions, next) =
    let from = find (is_primary_of tenant session) db.session_tables in
    let kept = rows_from origin from db.session_tables in
    let row = primary_row tenant outlet session to origin.now db.next_id in
    record {
      unique = λ t i. rw sessions (v.unique t i);
      fresh = λ t i h. rw sessions (v.fresh t i (omega (arith, h, next)));
      sound = rw sessions v.sound;
      single =
          rw rows
            (append_single row kept free (rows_from_single origin from db.session_tables v.single));
      held =
          rw (rows, sessions)
            (All-append (IsHeld db.sessions) kept row
              (rows_from-IsHeld db.sessions origin from db.session_tables v.held)
              (live_holder tenant outlet session to db.next_id origin db.sessions v.sound live));
    }

move_guests-cases :
    (tenant outlet session to : Uuid) (origin : CommandOrigin) (db : FloorDb)
    → ((r : Option MovedSession) × (count_where (is_live tenant outlet session) db.sessions ≡ 1)
        × (move_live tenant outlet session to origin db
            ≡ (ok r, (move_guests tenant outlet session to origin db).1)))
      ⊎ ((move_guests tenant outlet session to origin db).1 ≡ db)
unfolding move_guests move_transaction
move_guests-cases tenant outlet session to origin db =
    elim (Bool-cases (count_where (is_live tenant outlet session) db.sessions == 1)) [
      | inr gone ↦ inr (ground arith)
      | inl live ↦ elim (Result-cases ((move_live tenant outlet session to origin db).0)) [
        | inl (r, g) ↦ inl (r, ground arith, ground arith)
        | inr (e, g) ↦ inr (ground arith)
      ]
    ]

move-cases :
    (tenant outlet id table : Uuid) (origin : CommandOrigin) (db : FloorDb)
    → ((move tenant outlet id table origin db).1 ≡ (move_guests tenant outlet id table origin db).1)
      ⊎ ((move tenant outlet id table origin db).1 ≡ db)
unfolding move get require_free
move-cases tenant outlet id table origin db =
    let m = move_guests tenant outlet id table origin db in
    elim (Result-cases ((get tenant outlet id db).0)) [
      | inr (e, h) ↦ inr (ground arith)
      | inl (s, h) ↦ elim (Bool-cases (is_closed s.status)) [
        | inl shut ↦ inr (ground arith)
        | inr on ↦ elim (Result-cases ((require_free tenant outlet table db).0)) [
          | inr (e, g) ↦ inr (ground arith)
          | inl (u, g) ↦ elim (Result-cases (m.0)) [
            | inr (e, k) ↦ inl (ground arith)
            | inl (none, k) ↦ inl (ground arith)
            | inl (some r, k) ↦ inl (ground arith)
          ]
        ]
      ]
    ]

pub move-IsSeated :
    (tenant outlet id table : Uuid) (origin : CommandOrigin) (db : FloorDb)
    → IsSeated db
    → IsSeated (move tenant outlet id table origin db).1
move-IsSeated tenant outlet id table origin db v =
    elim (move-cases tenant outlet id table origin db) [
      | inr same ↦ rw same v
      | inl ran ↦ elim (move_guests-cases tenant outlet id table origin db) [
        | inr same ↦ rw (ran ∙ same) v
        | inl (r, live, e) ↦ rw ran (
            Moved-IsSeated tenant outlet id table origin db _ v live
              (move_live-Moved tenant outlet id table origin db e))
      ]
    ]
