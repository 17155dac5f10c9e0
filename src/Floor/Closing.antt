-- ===== src/Floor/Closing.antt =====
-- The same repository (prisma-table-session.repository.ts): closing a visit, cleaning its tables, and
-- the outlet's policy.
use merchant_operations_plat.Prelude.{
  Bool, true, false, ◌&&◌, Option, none, some, List, [], ◌∷◌, Uuid, find, any, ◌==◌, if◌then◌else◌,
  Instant,
}
use merchant_operations_plat.Contracts.Floor.{TableSessionStatus, is_closed}
use merchant_operations_plat.Database.Tables.{update_many, count_where}
use merchant_operations_plat.Floor.{
  FloorTableSession, FloorSessionTable, FloorPolicy, FloorOutletPolicy, FloorAuditAction,
  FloorEventType, FloorDb, record_not_found, Action, pure, gets, or_throw, ◌>>=◌, ◌>>◌, modify,
  transaction,
}
use merchant_operations_plat.Floor.Visits.{
  CommandOrigin, TableSessionRecord, is_none, is_attached, is_of_session, is_holding, session_by_id,
  session_at, is_live, to_session, note, announce, detached,
}

abbrev pub as_closed : CommandOrigin → Bool → FloorTableSession → FloorTableSession
as_closed origin needs_cleaning s = record s {
  closed_at = some origin.now;
  closed_by = origin.actor_id;
  needs_cleaning = needs_cleaning;
  status = TableSessionStatus.closed;
}

-- The tables that a visit still holds are let go of.
abbrev pub detach_all : Uuid → Uuid → Instant → FloorDb → FloorDb
detach_all tenant session now db = record db {
  session_tables =
      update_many (λ t. is_attached t && is_of_session tenant session t) (detached now)
        db.session_tables;
}

abbrev pub close_live : Uuid → Uuid → Uuid → Bool → CommandOrigin → FloorDb → FloorDb
close_live tenant outlet session needs_cleaning origin db = record db {
  sessions =
      update_many (is_live tenant outlet session) (as_closed origin needs_cleaning) db.sessions;
}

abbrev let_go : Bool → Uuid → Uuid → CommandOrigin → Action (Unit {0})
let_go true tenant session origin = pure tt
let_go false tenant session origin = modify (detach_all tenant session origin.now)

-- The writes of a close, once it has found the visit live.
unfoldable pub finish_close :
    Uuid → Uuid → Uuid → Bool → CommandOrigin → Action (Option TableSessionRecord)
finish_close tenant outlet session needs_cleaning origin = do
  modify (close_live tenant outlet session needs_cleaning origin)
  let_go needs_cleaning tenant session origin
  note FloorAuditAction.session_close tenant outlet session origin
  announce FloorEventType.session_closed tenant outlet session
  row ← gets (λ db. find (session_by_id tenant session) db.sessions)
  found ← or_throw row record_not_found
  closed ← gets (λ db. to_session db found)
  pure (some closed)

unfoldable pub close_transaction :
    Uuid
    → Uuid
    → Uuid
    → Bool
    → CommandOrigin
    → Action (Unit {0})
    → Action (Option TableSessionRecord)
unfolding finish_close
close_transaction tenant outlet session needs_cleaning origin ensure_settled = do
  ensure_settled
  live ← gets (λ db. count_where (is_live tenant outlet session) db.sessions)
  if live == 0 then pure none else finish_close tenant outlet session needs_cleaning origin

unfoldable pub close_visit :
    Uuid
    → Uuid
    → Uuid
    → Bool
    → CommandOrigin
    → Action (Unit {0})
    → Action (Option TableSessionRecord)
unfolding close_transaction
close_visit tenant outlet session needs_cleaning origin ensure_settled =
    transaction (close_transaction tenant outlet session needs_cleaning origin ensure_settled)

-- `{ cleanedAt: null, needsCleaning: true, status: "CLOSED" }`
abbrev pub is_awaiting : FloorTableSession → Bool
is_awaiting s = is_closed s.status && (s.needs_cleaning && is_none s.cleaned_at)

abbrev pub is_held_dirty : Uuid → Uuid → Uuid → FloorDb → FloorSessionTable → Bool
is_held_dirty tenant outlet table db t =
    t.outlet_id == outlet
    && (is_holding tenant table t
        && any (λ s. session_at t.tenant_id t.outlet_id t.session_id s && is_awaiting s)
            db.sessions)

abbrev pub as_cleaned : CommandOrigin → FloorTableSession → FloorTableSession
as_cleaned origin s = record s { cleaned_at = some origin.now }

abbrev pub clean_session : Uuid → Uuid → CommandOrigin → FloorDb → FloorDb
clean_session tenant session origin db = record db {
  sessions = update_many (session_by_id tenant session) (as_cleaned origin) db.sessions;
}

unfoldable pub clean_held :
    Uuid → Uuid → CommandOrigin → Option FloorSessionTable → Action (Option TableSessionRecord)
clean_held tenant outlet origin none = pure none
clean_held tenant outlet origin (some held) = do
  modify (clean_session tenant held.session_id origin)
  modify (detach_all tenant held.session_id origin.now)
  note FloorAuditAction.table_clean tenant outlet held.session_id origin
  row ← gets (λ db. find (session_by_id tenant held.session_id) db.sessions)
  found ← or_throw row record_not_found
  cleaned ← gets (λ db. to_session db found)
  pure (some cleaned)

unfoldable pub clean_transaction :
    Uuid → Uuid → Uuid → CommandOrigin → Action (Option TableSessionRecord)
unfolding clean_held
clean_transaction tenant outlet table origin = do
  held ← gets (λ db. find (is_held_dirty tenant outlet table db) db.session_tables)
  clean_held tenant outlet origin held

unfoldable pub clean_table : Uuid → Uuid → Uuid → CommandOrigin → Action (Option TableSessionRecord)
unfolding clean_transaction
clean_table tenant outlet table origin = transaction (clean_transaction tenant outlet table origin)

abbrev is_policy_of : Uuid → Uuid → FloorOutletPolicy → Bool
is_policy_of tenant outlet p = p.outlet_id == outlet && p.tenant_id == tenant

abbrev policy_or_default : Option FloorOutletPolicy → FloorPolicy
policy_or_default none = record { cleaning_after_close = false; guest_payment_note = none }
policy_or_default (some p) = p.policy

unfoldable pub policy : Uuid → Uuid → FloorDb → FloorPolicy
policy tenant outlet db = policy_or_default (find (is_policy_of tenant outlet) db.policies)

-- `floorOutletPolicy.upsert`
abbrev upsert_policy : FloorOutletPolicy → List FloorOutletPolicy → List FloorOutletPolicy
upsert_policy new [] = new ∷ []
upsert_policy new (p ∷ ps) =
    if is_policy_of new.tenant_id new.outlet_id p then new ∷ ps else p ∷ upsert_policy new ps

unfoldable pub set_policy : Uuid → Uuid → FloorPolicy → CommandOrigin → Action FloorPolicy
set_policy tenant outlet new origin = transaction (do
  modify (λ db. record db {
    policies =
        upsert_policy (record { tenant_id = tenant; outlet_id = outlet; policy = new }) db.policies;
  })
  note FloorAuditAction.policy_update tenant outlet outlet origin
  pure new)
