-- ===== src/Floor/Runs/Taken.antt =====
-- What staff see of a table that is held (`tableStatus` of
-- apps/api/src/modules/floor/domain/table-status.ts).
use merchant_operations_plat.Prelude.{
  ◌≡◌, ◌≢◌, ◌⊎◌, inl, inr, subst, Bool, true, some, List, [], ◌∷◌, arith, All, any, find,
  Bool-cases,
}
use merchant_operations_plat.Contracts.Floor.{FloorRecordStatus, FloorTableStatus}
use merchant_operations_plat.Database.Tables.{find_holds}
use merchant_operations_plat.Floor.{FloorTableSession, FloorSessionTable, FloorDb}
use merchant_operations_plat.Floor.Visits.{is_attached, session_by_id, session_at, to_session}
use merchant_operations_plat.Floor.TableSessions.{table_status}
use merchant_operations_plat.Floor.Seated.{unique_holds, is_holder, IsHeld, IsSeated}

All-find :
    (q : FloorTableSession → Bool) (P : FloorTableSession → Type 0) (xs : List FloorTableSession)
    {s : FloorTableSession}
    → All P xs
    → find q xs ≡ some s
    → P s
All-find q P [] h e = absurd (cc)
All-find q P (x ∷ xs) {s} h e = elim (Bool-cases (q x)) [
  | inl g ↦ let same : x ≡ s = ground arith in subst P same h.0
  | inr g ↦ All-find q P xs {s = s} h.1 (ground arith)
]

any-find :
    (p q : FloorTableSession → Bool) (xs : List FloorTableSession)
    → ((s : FloorTableSession) → p s ≡ true → q s ≡ true)
    → any p xs ≡ true
    → (s : FloorTableSession) × (find q xs ≡ some s)
any-find p q [] w h = absurd (cc)
any-find p q (x ∷ xs) w h = elim (Bool-cases (q x)) [
  | inl g ↦ (x, ground arith)
  | inr g ↦ let (s, f) = any-find p q xs w (ground (arith, w x)) in (s, ground arith)
]

-- A row that holds a table, with the others.
abbrev pub Holds : List FloorSessionTable → FloorSessionTable → Type 0
Holds [] t = ⊥
Holds (x ∷ xs) t = (x ≡ t) ⊎ Holds xs t

row-IsHeld :
    (sessions : List FloorTableSession) (rows : List FloorSessionTable) (t : FloorSessionTable)
    → All (IsHeld sessions) rows
    → Holds rows t
    → IsHeld sessions t
row-IsHeld sessions [] t h m = absurd m
row-IsHeld sessions (x ∷ xs) t h m = elim m [
  | inl same ↦ subst (IsHeld sessions) same h.0
  | inr later ↦ row-IsHeld sessions xs t h.1 later
]

-- Staff see guests at the table, leaving it, or a table to be cleaned.
abbrev pub IsTaken : FloorTableStatus → Type 0
IsTaken s = (s ≢ FloorTableStatus.available) × (s ≢ FloorTableStatus.set_aside)

holder-IsTaken :
    (status : FloorRecordStatus) (db : FloorDb) (t : FloorSessionTable) (s : FloorTableSession)
    → is_holder t s ≡ true
    → IsTaken (table_status status (some (to_session db s)))
unfolding table_status
holder-IsTaken status db t s h = ((λ e. ground arith), (λ e. ground arith))

-- Where every table has one visit at most and a visit that may hold it, the visit of a row that is
-- not let go of is found, and the table is shown as occupied, closing or to be cleaned, whether or
-- not it has been set aside: never as available.
pub held_table-IsTaken :
    (db : FloorDb) (t : FloorSessionTable) (status : FloorRecordStatus)
    → IsSeated db
    → Holds db.session_tables t
    → is_attached t ≡ true
    → (s : FloorTableSession) × (find (session_at t.tenant_id t.outlet_id t.session_id) db.sessions
        ≡ some s)
      × IsTaken (table_status status (some (to_session db s)))
held_table-IsTaken db t status v m on =
    let held = row-IsHeld db.sessions db.session_tables t v.held m in
    let some_holder : any (is_holder t) db.sessions ≡ true = ground arith in
    let (s, f) =
      any-find (is_holder t) (session_at t.tenant_id t.outlet_id t.session_id) db.sessions
        (λ s h. ground arith) some_holder in
    let all =
      unique_holds (is_holder t) (session_by_id t.tenant_id t.session_id) db.sessions
        (λ s h. ground arith) (v.unique t.tenant_id t.session_id) some_holder in
    let own = find_holds (session_at t.tenant_id t.outlet_id t.session_id) db.sessions f in
    let holds =
      All-find (session_at t.tenant_id t.outlet_id t.session_id)
        (λ s. session_by_id t.tenant_id t.session_id s ≡ true → is_holder t s ≡ true) db.sessions
        {s = s} all f in
    (s, f, holder-IsTaken status db t s (holds (ground arith)))
