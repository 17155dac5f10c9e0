-- ===== src/PosSales/Shifts.antt =====
-- apps/api/src/modules/pos-sales/adapters/prisma-register-session.repository.ts and
-- application/shift.service.ts: a cashier's shift is opened, its cash moved, and it is closed.
pub mod Single
use merchant_operations_plat.Prelude.{
  ℕ, Bool, true, false, not, ◌&&◌, ◌||◌, Option, none, some, List, [], ◌∷◌, ◌++◌, Uuid, Text,
  Instant, find, any, ◌==◌, if◌then◌else◌,
}
use merchant_operations_plat.Prelude.Int.{ℤ, pos, ltb_ℤ, ◌==ℤ◌}
use merchant_operations_plat.Database.{
  Db, RegisterSession, SessionStatus, CashMovement, Direction, cash_in, cash_out, AuditAction,
  EventType,
}
use merchant_operations_plat.Database.Tables.{update_many, count_where}
use merchant_operations_plat.Database.Faults.{Fault}
use merchant_operations_plat.Database.Action.{
  Action, pure, throw, gets, or_throw, ◌>>=◌, ◌>>◌, throw_if, modify, new_id, audit, emit,
  transaction, catch_unique,
}
use merchant_operations_plat.Billing.{MutationContext}
use merchant_operations_plat.Billing.Store.{is_open}
use merchant_operations_plat.Billing.Service.Refund.{
  ShiftPayments, payments_in_session, cash_received_in_session,
}
use merchant_operations_plat.PosSales.RegisterSession.{
  CashTotals, CloseDecision, balanced, variance_reason_required, total_cash, decide_close,
}

abbrev pub session_by_id : Uuid → Uuid → RegisterSession → Bool
session_by_id tenant id s = s.id == id && s.tenant_id == tenant

-- The partial unique index: one open shift for a cashier at an outlet.
abbrev pub is_open_of : Uuid → Uuid → Uuid → RegisterSession → Bool
is_open_of tenant outlet cashier s =
    s.opened_by == cashier && (s.outlet_id == outlet && (is_open s.status && s.tenant_id == tenant))

abbrev pub is_open_by_id : Uuid → Uuid → RegisterSession → Bool
is_open_by_id tenant id s = s.id == id && (is_open s.status && s.tenant_id == tenant)

abbrev audit_shift : AuditAction → MutationContext → RegisterSession → Action (Unit {0})
audit_shift action context s = audit (record {
  action = action;
  actor_id = some context.actor_id;
  entity_id = s.id;
  outlet_id = s.outlet_id;
  tenant_id = s.tenant_id;
})

abbrev emit_shift : EventType → RegisterSession → Action (Unit {0})
emit_shift type s =
    emit (record {
      type = type;
      aggregate_id = s.id;
      outlet_id = s.outlet_id;
      tenant_id = s.tenant_id;
    })

abbrev pub new_session : Uuid → Uuid → ℤ → MutationContext → Uuid → RegisterSession
new_session tenant outlet opening context id = record {
  id = id;
  tenant_id = tenant;
  outlet_id = outlet;
  status = SessionStatus.opened;
  opened_by = context.actor_id;
  opened_at = context.now;
  opening_cash_minor = opening;
  closed_by = none;
  closed_at = none;
  expected_cash_minor = none;
  counted_cash_minor = none;
  variance_minor = none;
  variance_reason = none;
  movements = [];
}

unfoldable pub insert_transaction :
    Uuid → Uuid → ℤ → MutationContext → Action (Option RegisterSession)
insert_transaction tenant outlet opening context = do
  taken ← gets (λ db. any (is_open_of tenant outlet context.actor_id) db.register_sessions)
  throw_if taken Fault.unique_violation
  id ← new_id
  let row = new_session tenant outlet opening context id
  modify (λ db. record db { register_sessions = db.register_sessions ++ row ∷ [] })
  audit_shift AuditAction.register_session_open context row
  emit_shift EventType.shift_opened row
  pure (some row)

-- The repository's `open`: `none` where the unique index refuses the row.
unfoldable pub insert_session : Uuid → Uuid → ℤ → MutationContext → Action (Option RegisterSession)
unfolding insert_transaction
insert_session tenant outlet opening context =
    catch_unique (transaction (insert_transaction tenant outlet opening context)) (pure none)

abbrev pub has_movement : Text → RegisterSession → Bool
has_movement key s = any (λ (m : CashMovement). m.idempotency_key == key) s.movements

pub record NewMovement : Type 0 where
  pub amount_minor : ℤ
  pub direction : Direction
  pub idempotency_key : Text
  pub reason : Text

abbrev pub movement_row : MutationContext → NewMovement → Uuid → CashMovement
movement_row context m id = record {
  id = id;
  amount_minor = m.amount_minor;
  direction = m.direction;
  idempotency_key = m.idempotency_key;
  reason = m.reason;
  actor_id = context.actor_id;
}

abbrev pub with_movement : CashMovement → RegisterSession → RegisterSession
with_movement m s = record s { movements = s.movements ++ m ∷ [] }

abbrev pub session_now : RegisterSession → Action RegisterSession
session_now session = do
  or_throw (← gets (λ db. find (session_by_id session.tenant_id session.id) db.register_sessions))
      Fault.record_not_found

-- The shift is locked first; the key is unique in a shift.
unfoldable pub movement_transaction :
    RegisterSession → NewMovement → MutationContext → Action (Option RegisterSession)
movement_transaction session m context = do
  lock ← gets (λ db. count_where (is_open_by_id session.tenant_id session.id) db.register_sessions)
  if not (lock == 1) then pure none else (do
    taken ← gets (λ db.
        any (λ s. session_by_id session.tenant_id session.id s && has_movement m.idempotency_key s)
          db.register_sessions)
    throw_if taken Fault.unique_violation
    id ← new_id
    modify (λ db. record db {
      register_sessions =
          update_many (session_by_id session.tenant_id session.id)
            (with_movement (movement_row context m id)) db.register_sessions;
    })
    audit_shift AuditAction.cash_movement_record context session
    row ← session_now session
    pure (some row))

unfoldable pub append_cash_movement :
    RegisterSession → NewMovement → MutationContext → Action (Option RegisterSession)
unfolding movement_transaction
append_cash_movement session m context =
    catch_unique (transaction (movement_transaction session m context))
      (do row ← session_now session; pure (some row))

pub record CloseFacts : Type 0 where
  pub counted_cash_minor : ℤ
  pub expected_cash_minor : ℤ
  pub variance_minor : ℤ
  pub variance_reason : Option Text

abbrev pub as_closed : CloseFacts → MutationContext → RegisterSession → RegisterSession
as_closed facts context s = record s {
  closed_at = some context.now;
  closed_by = some context.actor_id;
  counted_cash_minor = some facts.counted_cash_minor;
  expected_cash_minor = some facts.expected_cash_minor;
  status = SessionStatus.closed;
  variance_minor = some facts.variance_minor;
  variance_reason = facts.variance_reason;
}

unfoldable pub close_transaction :
    RegisterSession
    → (RegisterSession → Action CloseFacts)
    → MutationContext
    → Action RegisterSession
close_transaction session decide context = do
  lock ← gets (λ db. count_where (is_open_by_id session.tenant_id session.id) db.register_sessions)
  if not (lock == 1) then session_now session else (do
    locked ← session_now session
    facts ← decide locked
    modify (λ db. record db {
      register_sessions =
          update_many (is_open_by_id session.tenant_id session.id) (as_closed facts context)
            db.register_sessions;
    })
    audit_shift AuditAction.register_session_close context session
    emit_shift EventType.shift_closed session
    session_now session)

-- The repository's `close`; `decide` runs once the shift is locked.
unfoldable pub close_session :
    RegisterSession
    → (RegisterSession → Action CloseFacts)
    → MutationContext
    → Action RegisterSession
unfolding close_transaction
close_session session decide context = transaction (close_transaction session decide context)
