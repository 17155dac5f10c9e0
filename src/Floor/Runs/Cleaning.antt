-- ===== src/Floor/Runs/Cleaning.antt =====
-- Cleaning up after a visit keeps every table with at most one visit.
use merchant_operations_plat.Prelude.{
  ◌≡◌, ◌⊎◌, inl, inr, refl, true, ◌&&◌, Option, none, some, List, [], ◌∷◌, Uuid, ok, arith, All,
  find, Result-cases, Option-cases,
}
use merchant_operations_plat.Database.Tables.{update_many, find_holds}
use merchant_operations_plat.Floor.{FloorTableSession, FloorSessionTable, FloorDb}
use merchant_operations_plat.Floor.Visits.{
  CommandOrigin, TableSessionRecord, is_attached, is_of_session, session_by_id, session_at,
}
use merchant_operations_plat.Floor.Closing.{
  detach_all, is_awaiting, is_held_dirty, as_cleaned, clean_held, clean_transaction, clean_table,
  set_policy,
}
use merchant_operations_plat.Floor.TableSessions.{UpdateFloorPolicy, clean, change_policy}
use merchant_operations_plat.Floor.Seated.{All-update_many, unique_holds, is_sound, IsSeated}
use merchant_operations_plat.Floor.Runs.Moving.{detach_single}
use merchant_operations_plat.Floor.Runs.Leaving.{let_go-IsHeld, update_unique, update_fresh}

-- What cleaning up after the visit of a row writes.
abbrev pub Cleaned : Uuid → FloorSessionTable → CommandOrigin → FloorDb → FloorDb → Type 0
Cleaned tenant held origin db db' =
    (db'.sessions
      ≡ update_many (session_by_id tenant held.session_id) (as_cleaned origin) db.sessions)
    × (db'.next_id ≡ db.next_id)
    × (db'.session_tables ≡ (detach_all tenant held.session_id origin.now db).session_tables)

clean_held-Cleaned :
    (tenant outlet : Uuid) (held : FloorSessionTable) (origin : CommandOrigin) (db : FloorDb)
    {r : Option TableSessionRecord} {db' : FloorDb}
    → clean_held tenant outlet origin (some held) db ≡ (ok r, db')
    → Cleaned tenant held origin db db'
unfolding clean_held
clean_held-Cleaned tenant outlet held origin db {r} {db'} e =
    let after =
      update_many (session_by_id tenant held.session_id) (as_cleaned origin) db.sessions in
    elim (Option-cases (find (session_by_id tenant held.session_id) after)) [
      | inl lost ↦ absurd (ground arith)
      | inr (s, f) ↦ ground arith
    ]

-- The visit that is cleaned up after is closed.
unique_awaiting :
    (tenant outlet table : Uuid) (held : FloorSessionTable) (db : FloorDb)
    → IsSeated db
    → is_held_dirty tenant outlet table db held ≡ true
    → All
        (λ s.
          session_by_id tenant held.session_id s ≡ true
          → (session_at held.tenant_id held.outlet_id held.session_id s && is_awaiting s) ≡ true)
        db.sessions
unique_awaiting tenant outlet table held db v h =
    let own : held.tenant_id ≡ tenant = ground arith in
    unique_holds (λ s. session_at held.tenant_id held.outlet_id held.session_id s && is_awaiting s)
      (session_by_id tenant held.session_id) db.sessions (λ s e. ground arith)
      (v.unique tenant held.session_id) (ground arith)

both_hold :
    (P Q : FloorTableSession → Type 0) (xs : List FloorTableSession)
    → All P xs
    → All Q xs
    → All (λ s. P s × Q s) xs
both_hold P Q [] p q = tt
both_hold P Q (x ∷ xs) p q = ((p.0, q.0), both_hold P Q xs p.1 q.1)

Cleaned-IsSeated :
    (tenant outlet table : Uuid) (held : FloorSessionTable) (origin : CommandOrigin)
    (db db' : FloorDb)
    → IsSeated db
    → is_held_dirty tenant outlet table db held ≡ true
    → Cleaned tenant held origin db db'
    → IsSeated db'
Cleaned-IsSeated tenant outlet table held origin db db' v dirty (sessions, next, rows) =
    let p = session_by_id tenant held.session_id in
    record {
      unique =
          rw sessions (update_unique p (as_cleaned origin) db.sessions 1 (λ t i y. refl) v.unique);
      fresh = λ t i h. rw sessions (
          update_fresh p (as_cleaned origin) db.sessions t i (λ y. refl)
            (v.fresh t i (omega (arith, h, next))));
      sound = rw sessions (
          All-update_many p (as_cleaned origin) (λ s. (is_sound s ≡ true) × IsDone s)
            (λ s. is_sound s ≡ true) db.sessions (λ s h hit. closed_sound s (h.1 hit))
            (λ s h miss. h.0)
            (both_hold (λ s. is_sound s ≡ true) IsDone db.sessions v.sound
              (unique_awaiting tenant outlet table held db v dirty)));
      single = rw rows (
          detach_single (λ t. is_attached t && is_of_session tenant held.session_id t) origin
            db.session_tables v.single);
      held =
          rw (rows, sessions)
            (let_go-IsHeld db.sessions p (as_cleaned origin) tenant held.session_id origin
              db.session_tables (λ s hit. hit) v.held);
    }
  where
    IsDone : FloorTableSession → Type 0
    IsDone s =
        session_by_id tenant held.session_id s ≡ true
        → (session_at held.tenant_id held.outlet_id held.session_id s && is_awaiting s) ≡ true

    closed_sound :
        (s : FloorTableSession)
        → (session_at held.tenant_id held.outlet_id held.session_id s && is_awaiting s) ≡ true
        → is_sound (as_cleaned origin s) ≡ true
    closed_sound s h = ground arith

clean-cases :
    (tenant outlet table : Uuid) (origin : CommandOrigin) (db : FloorDb)
    → ((held : FloorSessionTable) × (r : Option TableSessionRecord) × (is_held_dirty tenant outlet
            table db held
          ≡ true)
        × (clean_held tenant outlet origin (some held) db
            ≡ (ok r, (clean tenant outlet table origin db).1)))
      ⊎ ((clean tenant outlet table origin db).1 ≡ db)
unfolding clean clean_table clean_transaction
clean-cases tenant outlet table origin db =
    elim (Option-cases (find (is_held_dirty tenant outlet table db) db.session_tables)) [
      | inl none_held ↦ inr (ground arith)
      | inr (held, f) ↦ elim (Result-cases ((clean_held tenant outlet origin (some held) db).0)) [
        | inr (e, g) ↦ inr (ground arith)
        | inl (none, g) ↦ inl (
          held,
          none,
          find_holds (is_held_dirty tenant outlet table db) db.session_tables f,
          ground arith,
        )
        | inl (some r, g) ↦ inl (
          held,
          some r,
          find_holds (is_held_dirty tenant outlet table db) db.session_tables f,
          ground arith,
        )
      ]
    ]

pub clean-IsSeated :
    (tenant outlet table : Uuid) (origin : CommandOrigin) (db : FloorDb)
    → IsSeated db
    → IsSeated (clean tenant outlet table origin db).1
clean-IsSeated tenant outlet table origin db v = elim (clean-cases tenant outlet table origin db) [
  | inr same ↦ rw same v
  | inl (held, r, dirty, e) ↦
      Cleaned-IsSeated tenant outlet table held origin db _ v dirty
        (clean_held-Cleaned tenant outlet held origin db e)
]

pub change_policy-IsSeated :
    (tenant outlet : Uuid) (change : UpdateFloorPolicy) (origin : CommandOrigin) (db : FloorDb)
    → IsSeated db
    → IsSeated (change_policy tenant outlet change origin db).1
unfolding change_policy set_policy
change_policy-IsSeated tenant outlet change origin db v = record {
  unique = v.unique;
  fresh = v.fresh;
  sound = v.sound;
  single = v.single;
  held = v.held;
}
