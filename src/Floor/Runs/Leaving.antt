-- ===== src/Floor/Runs/Leaving.antt =====
-- Closing a visit and cleaning up after it keep every table with at most one visit, one that is live
-- or whose tables wait to be cleaned.
use merchant_operations_plat.Prelude.{
  ℕ, ◌≤◌, ◌≡◌, ◌⊎◌, inl, inr, refl, ◌∙◌, Bool, true, false, ◌&&◌, Option, none, some, List, Uuid,
  ok, arith, All, find, ◌==◌, if◌then◌else◌, Bool-cases, Result-cases, Option-cases,
}
use merchant_operations_plat.Contracts.Floor.{is_closed}
use merchant_operations_plat.Database.{Db}
use merchant_operations_plat.Database.Tables.{
  update_many, count_where, count_where-update_many_same,
}
use merchant_operations_plat.Floor.{
  FloorTableSession, FloorSessionTable, FloorDb, FloorFault, Action, ◌>>=◌, ◌>>◌, throw_if,
}
use merchant_operations_plat.Floor.Visits.{
  CommandOrigin, TableSessionRecord, is_attached, is_of_session, is_live, detached, session_by_id,
  find_session,
}
use merchant_operations_plat.Floor.Closing.{
  as_closed, detach_all, finish_close, close_transaction, close_visit, policy,
}
use merchant_operations_plat.Floor.TableSessions.{
  get, or_closed, ensure_settled, close, close_found, close_settled,
}
use merchant_operations_plat.Floor.Seated.{
  All-update_many, All-map, any-update_many, is_holder, IsHeld, is_sound, IsSeated,
}
use merchant_operations_plat.Floor.Runs.Moving.{detach_single}

-- The rows of the other visits keep their visit, whatever happens to this one.
update_many-IsHeld :
    (sessions : List FloorTableSession) (p : FloorTableSession → Bool)
    (f : FloorTableSession → FloorTableSession) (t : FloorSessionTable)
    → ((s : FloorTableSession) → is_holder t s ≡ true → p s ≡ true → is_holder t (f s) ≡ true)
    → IsHeld sessions t
    → IsHeld (update_many p f sessions) t
update_many-IsHeld sessions p f t keep h =
    ground (arith, any-update_many (is_holder t) p f sessions keep)

-- This visit's rows are let go of, and it may end.
pub let_go-IsHeld :
    (sessions : List FloorTableSession) (p : FloorTableSession → Bool)
    (f : FloorTableSession → FloorTableSession) (tenant session : Uuid) (origin : CommandOrigin)
    (rows : List FloorSessionTable)
    → ((s : FloorTableSession) → p s ≡ true → session_by_id tenant session s ≡ true)
    → All (IsHeld sessions) rows
    → All (IsHeld (update_many p f sessions)) (
        update_many
          (λ t. is_attached t && is_of_session tenant session t)
          (detached origin.now)
          rows)
let_go-IsHeld sessions p f tenant session origin rows only h =
    All-update_many (λ t. is_attached t && is_of_session tenant session t) (detached origin.now)
      (IsHeld sessions) (IsHeld (update_many p f sessions)) rows (λ t held hit. refl)
      (λ t held miss. elim (Bool-cases (is_attached t)) [
        | inr e ↦ ground arith
        | inl e ↦
            update_many-IsHeld sessions p f t
              (λ s holds hit. absurd (other t s e miss holds (only s hit))) held
      ])
      h
  where
    other :
        (t : FloorSessionTable) (s : FloorTableSession)
        → is_attached t ≡ true
        → (is_attached t && is_of_session tenant session t) ≡ false
        → is_holder t s ≡ true
        → session_by_id tenant session s ≡ true
        → ⊥
    other t s e miss holds hit = ground arith

close_sound :
    (p : FloorTableSession → Bool) (origin : CommandOrigin) (cleaning : Bool)
    (sessions : List FloorTableSession)
    → All (λ s. is_sound s ≡ true) sessions
    → All (λ s. is_sound s ≡ true) (update_many p (as_closed origin cleaning) sessions)
close_sound p origin cleaning sessions h =
    All-update_many p (as_closed origin cleaning) (λ s. is_sound s ≡ true) (λ s. is_sound s ≡ true)
      sessions (λ s ok hit. refl) (λ s ok miss. ok) h

-- What a close writes.
abbrev pub Closed : Uuid → Uuid → Uuid → Bool → CommandOrigin → FloorDb → FloorDb → Type 0
Closed tenant outlet session cleaning origin db db' =
    (db'.sessions
      ≡ update_many (is_live tenant outlet session) (as_closed origin cleaning) db.sessions)
    × (db'.next_id ≡ db.next_id)
    × (db'.session_tables ≡ (
        if cleaning
        then db.session_tables
        else (detach_all tenant session origin.now db).session_tables))

pub finish_close-Closed :
    (tenant outlet session : Uuid) (cleaning : Bool) (origin : CommandOrigin) (db : FloorDb)
    {r : Option TableSessionRecord} {db' : FloorDb}
    → finish_close tenant outlet session cleaning origin db ≡ (ok r, db')
    → Closed tenant outlet session cleaning origin db db'
unfolding finish_close
finish_close-Closed tenant outlet session cleaning origin db {r} {db'} e =
    let after =
      update_many (is_live tenant outlet session) (as_closed origin cleaning) db.sessions in
    elim (Option-cases (find (session_by_id tenant session) after)) [
      | inl lost ↦ elim (Bool-cases cleaning) [
        | inl c ↦ absurd (ground arith)
        | inr c ↦ absurd (ground arith)
      ]
      | inr (s, f) ↦ elim (Bool-cases cleaning) [ inl c ↦ ground arith | inr c ↦ ground arith ]
    ]

closed_stays :
    (tenant outlet session : Uuid) (origin : CommandOrigin) (t : FloorSessionTable)
    (s : FloorTableSession)
    → is_holder t s ≡ true
    → is_live tenant outlet session s ≡ true
    → is_holder t (as_closed origin true s) ≡ true
closed_stays tenant outlet session origin t s h live = ground arith

-- An update that keeps the identifiers.
pub update_unique :
    (p : FloorTableSession → Bool) (f : FloorTableSession → FloorTableSession)
    (sessions : List FloorTableSession) (n : ℕ)
    → ((tenant id : Uuid) (s : FloorTableSession)
        → session_by_id tenant id (f s) ≡ session_by_id tenant id s)
    → ((tenant id : Uuid) → count_where (session_by_id tenant id) sessions ≤ n)
    → (tenant id : Uuid) → count_where (session_by_id tenant id) (update_many p f sessions) ≤ n
update_unique p f sessions n same h tenant id =
    rw (count_where-update_many_same (session_by_id tenant id) p f sessions (same tenant id))
      (h tenant id)

pub update_fresh :
    (p : FloorTableSession → Bool) (f : FloorTableSession → FloorTableSession)
    (sessions : List FloorTableSession) (tenant id : Uuid)
    → ((s : FloorTableSession) → session_by_id tenant id (f s) ≡ session_by_id tenant id s)
    → count_where (session_by_id tenant id) sessions ≡ 0
    → count_where (session_by_id tenant id) (update_many p f sessions) ≡ 0
update_fresh p f sessions tenant id same h =
    rw (count_where-update_many_same (session_by_id tenant id) p f sessions same) h

Closed-IsSeated :
    (tenant outlet session : Uuid) (cleaning : Bool) (origin : CommandOrigin) (db db' : FloorDb)
    → IsSeated db
    → Closed tenant outlet session cleaning origin db db'
    → IsSeated db'
Closed-IsSeated tenant outlet session true origin db db' v (sessions, next, rows) =
    let live = is_live tenant outlet session in
    record {
      unique = λ t i. rw sessions (
          rw
            (count_where-update_many_same (session_by_id t i) live (as_closed origin true)
              db.sessions (λ y. refl))
            (v.unique t i));
      fresh = λ t i h. rw sessions (
          rw
            (count_where-update_many_same (session_by_id t i) live (as_closed origin true)
              db.sessions (λ y. refl))
            (v.fresh t i (omega (arith, h, next))));
      sound = rw sessions (close_sound live origin true db.sessions v.sound);
      single = rw rows v.single;
      held =
          rw (rows, sessions)
            (All-map (IsHeld db.sessions)
              (IsHeld (update_many live (as_closed origin true) db.sessions)) db.session_tables
              (λ t h.
                update_many-IsHeld db.sessions live (as_closed origin true) t
                  (closed_stays tenant outlet session origin t) h)
              v.held);
    }
Closed-IsSeated tenant outlet session false origin db db' v (sessions, next, rows) =
    let live = is_live tenant outlet session in
    record {
      unique = λ t i. rw sessions (
          rw
            (count_where-update_many_same (session_by_id t i) live (as_closed origin false)
              db.sessions (λ y. refl))
            (v.unique t i));
      fresh = λ t i h. rw sessions (
          rw
            (count_where-update_many_same (session_by_id t i) live (as_closed origin false)
              db.sessions (λ y. refl))
            (v.fresh t i (omega (arith, h, next))));
      sound = rw sessions (close_sound live origin false db.sessions v.sound);
      single = rw rows (
          detach_single (λ t. is_attached t && is_of_session tenant session t) origin
            db.session_tables v.single);
      held =
          rw (rows, sessions)
            (let_go-IsHeld db.sessions live (as_closed origin false) tenant session origin
              db.session_tables (λ s hit. ground arith) v.held);
    }

close_visit-cases :
    (tenant outlet session : Uuid) (cleaning : Bool) (origin : CommandOrigin) (db : FloorDb)
    (orders : Db)
    → ((r : Option TableSessionRecord) × ((ensure_settled orders tenant outlet session db).0
          ≡ ok tt)
        × (finish_close tenant outlet session cleaning origin db ≡ (
          ok r,
          (close_visit tenant outlet session cleaning origin
              (ensure_settled orders tenant outlet session)
              db).1,
        )))
      ⊎ ((close_visit tenant outlet session cleaning origin
            (ensure_settled orders tenant outlet session)
            db).1
          ≡ db)
unfolding close_visit close_transaction ensure_settled
close_visit-cases tenant outlet session cleaning origin db orders =
    elim (Result-cases ((ensure_settled orders tenant outlet session db).0)) [
      | inr (e, h) ↦ inr (ground arith)
      | inl (u, h) ↦
          elim (Bool-cases (count_where (is_live tenant outlet session) db.sessions == 0)) [
            | inl gone ↦ inr (ground arith)
            | inr live ↦
                elim (Result-cases ((finish_close tenant outlet session cleaning origin db).0)) [
                  | inl (r, g) ↦ inl (r, ground arith, ground arith)
                  | inr (e, g) ↦ inr (ground arith)
                ]
          ]
    ]

ensure_settled_reads :
    (orders : Db) (tenant outlet visit : Uuid) (db : FloorDb)
    → (ensure_settled orders tenant outlet visit db).1 ≡ db
unfolding ensure_settled
ensure_settled_reads orders tenant outlet visit db = ground arith

module _ {A B : Type 0} (m : Action A) (next : A → Action B) (db : FloorDb) where
  -- A step that only reads is passed, or nothing is written at all.
  bind_reads :
      (m db).1 ≡ db → ((a : A) × (((m >>= next) db).1 ≡ (next a db).1)) ⊎ (((m >>= next) db).1 ≡ db)
  bind_reads h = elim (Result-cases ((m db).0)) [
    | inl (a, e) ↦ inl (a, ground arith)
    | inr (e, g) ↦ inr (ground arith)
  ]

  -- The writes are those of the first step, where the second only reads.
  bind_last : ((a : A) (d : FloorDb) → (next a d).1 ≡ d) → ((m >>= next) db).1 ≡ (m db).1
  bind_last h = elim (Result-cases ((m db).0)) [
    | inl (a, e) ↦ ground (arith, h a (m db).1)
    | inr (e, g) ↦ ground arith
  ]

get_reads : (tenant outlet id : Uuid) (db : FloorDb) → (get tenant outlet id db).1 ≡ db
unfolding get
get_reads tenant outlet id db = elim (Option-cases (find_session tenant outlet id db)) [
  | inl e ↦ ground arith
  | inr (s, e) ↦ ground arith
]

throw_if_reads : (b : Bool) (e : FloorFault) (db : FloorDb) → (throw_if b e db).1 ≡ db
throw_if_reads true e db = refl
throw_if_reads false e db = refl

or_closed_reads : (r : Option TableSessionRecord) (d : FloorDb) → (or_closed r d).1 ≡ d
or_closed_reads none d = refl
or_closed_reads (some r) d = refl

close_ran :
    (orders : Db) (tenant outlet id : Uuid) (origin : CommandOrigin) (db : FloorDb)
    → ((close orders tenant outlet id origin db).1
        ≡ (close_visit tenant outlet id
            (policy tenant outlet db).cleaning_after_close
            origin
            (ensure_settled orders tenant outlet id)
            db).1)
      ⊎ ((close orders tenant outlet id origin db).1 ≡ db)
unfolding close
close_ran orders tenant outlet id origin db =
    elim (bind_reads (get tenant outlet id) (close_found orders tenant outlet id origin) db
      (get_reads tenant outlet id db)) [
        | inr same ↦ inr same
        | inl (s, first) ↦
            elim (bind_reads (throw_if (is_closed s.status) FloorFault.table_session_closed)
              (λ _.
                ensure_settled orders tenant outlet id
                >> close_settled orders tenant outlet id origin)
              db (throw_if_reads (is_closed s.status) FloorFault.table_session_closed db)) [
                | inr same ↦ inr (first ∙ same)
                | inl (u, second) ↦
                    elim (bind_reads (ensure_settled orders tenant outlet id)
                      (λ _. close_settled orders tenant outlet id origin) db
                      (ensure_settled_reads orders tenant outlet id db)) [
                        | inr same ↦ inr (first ∙ (second ∙ same))
                        | inl (w, third) ↦ inl (
                            first
                            ∙ (second
                                ∙ (third
                                    ∙ bind_last
                                        (close_visit tenant outlet id
                                          (policy tenant outlet db).cleaning_after_close origin
                                          (ensure_settled orders tenant outlet id))
                                        or_closed db or_closed_reads)))
                      ]
              ]
      ]

-- Whatever a close answers: the visit was settled and is closed, or nothing is written.
pub close-cases :
    (orders : Db) (tenant outlet id : Uuid) (origin : CommandOrigin) (db : FloorDb)
    → (((ensure_settled orders tenant outlet id db).0 ≡ ok tt)
        × Closed tenant outlet id
            (policy tenant outlet db).cleaning_after_close
            origin
            db
            (close orders tenant outlet id origin db).1)
      ⊎ ((close orders tenant outlet id origin db).1 ≡ db)
close-cases orders tenant outlet id origin db =
    let cleaning = (policy tenant outlet db).cleaning_after_close in
    elim (close_ran orders tenant outlet id origin db) [
      | inr same ↦ inr same
      | inl ran ↦ elim (close_visit-cases tenant outlet id cleaning origin db orders) [
        | inr same ↦ inr (ran ∙ same)
        | inl (r, settled, e) ↦
            inl (settled, rw ran (finish_close-Closed tenant outlet id cleaning origin db e))
      ]
    ]

pub close-IsSeated :
    (orders : Db) (tenant outlet id : Uuid) (origin : CommandOrigin) (db : FloorDb)
    → IsSeated db
    → IsSeated (close orders tenant outlet id origin db).1
close-IsSeated orders tenant outlet id origin db v =
    elim (close-cases orders tenant outlet id origin db) [
      | inr same ↦ rw same v
      | inl (settled, closed) ↦
          Closed-IsSeated tenant outlet id (policy tenant outlet db).cleaning_after_close origin db
            _ v closed
    ]
