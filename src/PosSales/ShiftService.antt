-- ===== src/PosSales/ShiftService.antt =====
-- apps/api/src/modules/pos-sales/application/shift.service.ts: the use cases of a cashier's shift.
use merchant_operations_plat.Prelude.{
  Bool, true, false, not, ◌&&◌, Option, none, some, List, [], Uuid, Text, find, ◌==◌, if◌then◌else◌,
}
use merchant_operations_plat.Prelude.Int.{ℤ, pos, ltb_ℤ, ◌==ℤ◌}
use merchant_operations_plat.Database.{
  Db, RegisterSession, CashMovement, Direction, cash_in, cash_out,
}
use merchant_operations_plat.Database.Faults.{Fault}
use merchant_operations_plat.Database.Action.{
  Action, pure, throw, gets, or_throw, ◌>>=◌, ◌>>◌, throw_if,
}
use merchant_operations_plat.Billing.{MutationContext}
use merchant_operations_plat.Billing.Store.{is_open}
use merchant_operations_plat.Billing.Service.Refund.{
  NonCashSum, payments_in_session, cash_received_in_session,
}
use merchant_operations_plat.PosSales.RegisterSession.{
  CashTotals, CloseDecision, balanced, variance_reason_required, total_cash, decide_close,
}
use merchant_operations_plat.PosSales.Shifts.{
  session_by_id, is_open_of, insert_session, NewMovement, append_cash_movement, CloseFacts,
  close_session,
}

-- What the cashier sees: the stored shift, its totals and what it took.
pub record SessionView : Type 0 where
  pub stored : RegisterSession
  pub totals : CashTotals
  pub cash_sales_minor : ℤ
  pub cash_refunds_minor : ℤ
  pub expected_minor : ℤ
  pub non_cash_payments : List NonCashSum

abbrev or_else : Option ℤ → ℤ → ℤ
or_else none b = b
or_else (some a) b = a

unfoldable to_register_session : RegisterSession → ℤ → List NonCashSum → ℤ → SessionView
unfolding total_cash
to_register_session row sales non_cash refunds =
    let totals = total_cash row.opening_cash_minor row.movements sales refunds in
    record {
      stored = row;
      totals = totals;
      cash_sales_minor = sales;
      cash_refunds_minor = refunds;
      expected_minor = or_else row.expected_cash_minor totals.expected_cash_minor;
      non_cash_payments = non_cash;
    }

unfoldable present : RegisterSession → Action SessionView
unfolding to_register_session payments_in_session
present row = do
  taken ← gets (payments_in_session row.tenant_id row.id)
  pure (to_register_session row taken.cash_minor taken.non_cash taken.cash_refunds_minor)

unfoldable pub find_open : Uuid → Uuid → Uuid → Db → Option RegisterSession
find_open tenant outlet cashier db = find (is_open_of tenant outlet cashier) db.register_sessions

unfoldable get_current : Uuid → Uuid → Uuid → Action (Option SessionView)
unfolding find_open present
get_current tenant outlet cashier = do
  session ← gets (find_open tenant outlet cashier)
  elim session [ none ↦ pure none | some row ↦ do view ← present row; pure (some view) ]

unfoldable pub expected_cash : Uuid → Uuid → Uuid → Action (Option ℤ)
unfolding get_current
expected_cash tenant outlet cashier = do
  current ← get_current tenant outlet cashier
  elim current [ none ↦ pure none | some view ↦ pure (some view.expected_minor) ]

unfoldable pub open_shift : Uuid → Uuid → ℤ → MutationContext → Action SessionView
unfolding insert_session to_register_session
open_shift tenant outlet opening context = do
  session ← insert_session tenant outlet opening context
  row ← or_throw session Fault.pos_shift_already_open
  pure (to_register_session row (pos 0) [] (pos 0))

-- Another cashier's or another outlet's shift is reported as missing.
abbrev is_own : Uuid → MutationContext → RegisterSession → Bool
is_own outlet context s = s.outlet_id == outlet && s.opened_by == context.actor_id

unfoldable require_own_session : Uuid → Uuid → Uuid → MutationContext → Action RegisterSession
require_own_session tenant outlet id context = do
  session ←
      or_throw (← gets (λ db. find (session_by_id tenant id) db.register_sessions))
        Fault.pos_shift_not_found
  throw_if (not (is_own outlet context session)) Fault.pos_shift_not_found
  pure session

abbrev same_direction : Direction → Direction → Bool
same_direction cash_in cash_in = true
same_direction cash_out cash_out = true
same_direction _ _ = false

abbrev is_same_movement : NewMovement → CashMovement → Bool
is_same_movement input m =
    m.amount_minor ==ℤ input.amount_minor
    && (same_direction m.direction input.direction && m.reason == input.reason)

-- Cash out is at most what the drawer should hold.
unfoldable ensure_in_drawer : RegisterSession → NewMovement → Action (Unit {0})
unfolding total_cash cash_received_in_session
ensure_in_drawer session input = elim input.direction [
  | cash_in ↦ pure tt
  | cash_out ↦ do
    received ← gets (cash_received_in_session session.tenant_id session.id)
    let totals = total_cash session.opening_cash_minor session.movements received (pos 0)
    throw_if (ltb_ℤ totals.expected_cash_minor input.amount_minor) Fault.pos_cash_out_exceeds_drawer
]

unfoldable move_cash : RegisterSession → NewMovement → MutationContext → Action SessionView
unfolding ensure_in_drawer append_cash_movement present
move_cash session input context = do
  ensure_in_drawer session input
  updated ← append_cash_movement session input context
  row ← or_throw updated Fault.pos_shift_not_open
  present row

unfoldable pub record_cash_movement :
    Uuid → Uuid → Uuid → NewMovement → MutationContext → Action SessionView
unfolding require_own_session move_cash present
record_cash_movement tenant outlet id input context = do
  session ← require_own_session tenant outlet id context
  throw_if (not (is_open session.status)) Fault.pos_shift_not_open
  let replayed =
      find (λ (m : CashMovement). m.idempotency_key == input.idempotency_key) session.movements
  elim replayed [
    | none ↦ move_cash session input context
    | some m ↦
        throw_if (not (is_same_movement input m)) Fault.idempotency_key_reused >> present session
  ]

abbrev pub is_given : Option Text → Bool
is_given none = false
is_given (some _) = true

abbrev close_facts : ℤ → ℤ → Option Text → CloseDecision → Action CloseFacts
close_facts counted expected reason variance_reason_required =
    throw Fault.pos_shift_variance_reason_required
close_facts counted expected reason (balanced variance) = pure (record {
  counted_cash_minor = counted;
  expected_cash_minor = expected;
  variance_minor = variance;
  variance_reason = if variance ==ℤ pos 0 then none else reason;
})

-- The decision on the locked shift. The contract trims a reason and wants three characters of it,
-- so that a given reason is not blank.
unfoldable pub decide_locked : ℤ → Option Text → RegisterSession → Action CloseFacts
unfolding total_cash cash_received_in_session decide_close
decide_locked counted reason locked = do
  received ← gets (cash_received_in_session locked.tenant_id locked.id)
  let totals = total_cash locked.opening_cash_minor locked.movements received (pos 0)
  let expected = totals.expected_cash_minor
  close_facts counted expected reason (decide_close counted expected (is_given reason))

-- Closing twice returns the closed shift.
unfoldable close_shift : Uuid → Uuid → Uuid → ℤ → Option Text → MutationContext → Action SessionView
unfolding require_own_session close_session decide_locked present
close_shift tenant outlet id counted reason context = do
  session ← require_own_session tenant outlet id context
  if not (is_open session.status) then present session else (do
    closed ← close_session session (decide_locked counted reason) context
    present closed)
