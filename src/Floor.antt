-- ===== src/Floor.antt =====
-- apps/api/src/modules/floor: where tables stand, and the visits of guests at them. The tables of
-- packages/database/prisma/schema.prisma that visits live in, and the commands on them.
pub mod Layout
pub mod Visits
pub mod Closing
pub mod TableSessions
pub mod Seated
pub mod Runs
pub mod Guard
mod Tests
use merchant_operations_plat.Prelude.{
  ℕ, suc, Bool, true, false, not, ◌&&◌, Option, none, some, List, [], ◌∷◌, ◌++◌, Uuid, Text,
  Instant, Result, ok, err,
}
use merchant_operations_plat.Contracts.Floor.{FloorRecordStatus, TableSessionStatus}

pub record FloorRow : Type 0 where
  pub id : Uuid
  pub status : FloorRecordStatus

pub record FloorArea : Type 0 where
  pub id : Uuid
  pub floor_id : Uuid
  pub status : FloorRecordStatus

pub record FloorServiceTable : Type 0 where
  pub id : Uuid
  pub tenant_id : Uuid
  pub outlet_id : Uuid
  pub area_id : Uuid
  pub label : Text
  pub status : FloorRecordStatus

pub record FloorTableSession : Type 0 where
  pub id : Uuid
  pub tenant_id : Uuid
  pub outlet_id : Uuid
  pub display_number : ℕ
  pub guest_count : ℕ
  pub status : TableSessionStatus
  pub opened_at : Instant
  pub opened_by : Option Uuid
  pub closed_at : Option Instant
  pub closed_by : Option Uuid
  pub needs_cleaning : Bool
  pub cleaned_at : Option Instant

-- Which table a visit holds; it is let go of when `detached_at` is set.
pub record FloorSessionTable : Type 0 where
  pub id : Uuid
  pub tenant_id : Uuid
  pub outlet_id : Uuid
  pub session_id : Uuid
  pub table_id : Uuid
  pub is_primary : Bool
  pub attached_at : Instant
  pub detached_at : Option Instant

pub record FloorPolicy : Type 0 where
  pub cleaning_after_close : Bool
  pub guest_payment_note : Option Text

pub record FloorOutletPolicy : Type 0 where
  pub tenant_id : Uuid
  pub outlet_id : Uuid
  pub policy : FloorPolicy

pub data FloorAuditAction : Type 0 where
  session_open session_move session_close table_clean policy_update : FloorAuditAction

pub record FloorAuditEntry : Type 0 where
  pub action : FloorAuditAction
  pub actor_id : Option Uuid
  pub entity_id : Uuid
  pub outlet_id : Uuid
  pub tenant_id : Uuid

pub data FloorEventType : Type 0 where
  session_opened session_moved session_closed : FloorEventType

pub record FloorOutboxEvent : Type 0 where
  pub type : FloorEventType
  pub aggregate_id : Uuid
  pub outlet_id : Uuid
  pub tenant_id : Uuid

pub record FloorDb : Type 0 where
  pub next_id : ℕ
  pub floors : List FloorRow
  pub areas : List FloorArea
  pub tables : List FloorServiceTable
  pub sessions : List FloorTableSession
  pub session_tables : List FloorSessionTable
  pub policies : List FloorOutletPolicy
  pub audit_log : List FloorAuditEntry
  pub outbox : List FloorOutboxEvent

-- `unique_violation`, `check_violation` and `record_not_found` come from the database, `table_taken` is
-- `TableTakenError`; the others are the coded exceptions of the service.
pub data FloorFault : Type 0 where
  unique_violation check_violation record_not_found table_taken : FloorFault
  floor_table_not_found table_not_available table_not_cleaning : FloorFault
  table_session_not_found table_session_closed table_session_unpaid self_order_pending : FloorFault

-- A command: what is thrown leaves what was written, except in a transaction.
abbrev pub Action : Type 0 → Type 0
Action A = FloorDb → Result FloorFault A × FloorDb

module _ {A : Type 0} where
  abbrev pub pure : A → Action A
  pure a db = (ok a, db)

  abbrev pub throw : FloorFault → Action A
  throw e db = (err e, db)

  abbrev pub gets : (FloorDb → A) → Action A
  gets f db = (ok (f db), db)

  abbrev pub or_throw : Option A → FloorFault → Action A
  or_throw none e = throw e
  or_throw (some a) e = pure a

infixl 5 ◌>>=◌ ◌>>◌
abbrev pub ◌>>=◌ : {A B : Type 0} → Action A → (A → Action B) → Action B
◌>>=◌ m f db = let (r, db') = m db in elim r [ ok a ↦ f a db' | err e ↦ (err e, db') ]

abbrev pub ◌>>◌ : {A B : Type 0} → Action A → Action B → Action B
m >> k = m >>= λ _. k

abbrev pub throw_if : Bool → FloorFault → Action (Unit {0})
throw_if true e = throw e
throw_if false e = pure tt

abbrev pub modify : (FloorDb → FloorDb) → Action (Unit {0})
modify f db = (ok tt, f db)

abbrev pub transaction : {A : Type 0} → Action A → Action A
transaction m db = let (r, db') = m db in elim r [ ok a ↦ (ok a, db') | err e ↦ (err e, db) ]

abbrev pub new_id : Action Uuid
new_id db = (ok db.next_id, record db { next_id = suc db.next_id })

abbrev pub audit : FloorAuditEntry → Action (Unit {0})
audit e = modify (λ db. record db { audit_log = db.audit_log ++ e ∷ [] })

abbrev pub emit : FloorOutboxEvent → Action (Unit {0})
emit e = modify (λ db. record db { outbox = db.outbox ++ e ∷ [] })
