-- ===== src/Database/Faults.antt =====
-- What a command throws: the coded exceptions of the services, and the errors that the database
-- and the transactions raise and a handler catches.
use merchant_operations_plat.Prelude.Int.{ℤ}
use merchant_operations_plat.OrderIntake.Pricing.{FailedLine}
use merchant_operations_plat.Contracts.Kds.{KitchenTicketStatus}

pub data Fault : Type 0 where
  idempotency_key_reused idempotency_key_conflict : Fault
  order_canceled order_not_found order_already_paid order_not_paid : Fault
  self_order_pending self_order_already_decided : Fault
  table_session_nothing_to_pay bill_currency_mixed bill_nothing_to_pay bill_already_paid : Fault
  order_total_changed payment_tendered_insufficient payment_claim_changed : Fault
  refund_exceeds_refundable : ℤ → Fault
  pos_shift_not_open pos_shift_not_found pos_shift_already_open pos_shift_required : Fault
  pos_shift_variance_reason_required pos_cash_out_exceeds_drawer : Fault
  kitchen_ticket_reference_used kitchen_ticket_finished kitchen_ticket_not_found : Fault
  kitchen_ticket_status_changed : KitchenTicketStatus → Fault
  line_refused : FailedLine → Fault
  -- Thrown by the database: a unique index is violated, or a row that must be there is not.
  unique_violation record_not_found : Fault
  -- Thrown inside a transaction to undo it.
  session_bill_mismatch claim_changed ticket_changed : Fault
  -- `RangeError` of the charges, and the `Error` of a service that is not wired.
  range_error not_wired : Fault
  -- `BlockedEventError`: an event that no retry repairs.
  blocked_event : Fault
  -- What a callback of another module throws.
  table_session_not_open : Fault
