-- ===== src/Billing/Claims.antt =====
-- `claimPayment`, `findClaim`, `verifyingClaims` and `rejectClaim` of
-- apps/api/src/kernels/billing-payment-ledger/adapters/prisma-billing.repository.ts.
pub mod Waiting
use merchant_operations_plat.Prelude.{
  Bool, not, ◌&&◌, Option, none, some, List, map, Uuid, find, filter, any, ◌==◌, if◌then◌else◌,
}
use merchant_operations_plat.Contracts.Billing.{PaymentStatus, is_verifying}
use merchant_operations_plat.Database.{Db, Payment, AuditAction, EventType}
use merchant_operations_plat.Database.Tables.{update_many, count_where}
use merchant_operations_plat.Database.Faults.{unique_violation, record_not_found}
use merchant_operations_plat.Database.Action.{
  Action, pure, throw, gets, or_throw, ◌>>=◌, ◌>>◌, throw_if, modify, audit, emit, transaction,
  catch_unique,
}
use merchant_operations_plat.Billing.{MutationContext, NewPaymentClaim, PaymentClaimRecord}
use merchant_operations_plat.Billing.Store.{has_key, in_visit, ensure_visit_orders}
use merchant_operations_plat.Billing.Writes.{create_payment}

-- `toClaim`
abbrev to_claim : Payment → PaymentClaimRecord
to_claim row = record {
  amount_minor = row.amount_minor;
  claimed_at = row.created_at;
  id = row.id;
  method = row.method;
  status = row.status;
  table_session_id = row.table_session_id;
}

-- The claim that a visit waits on.
abbrev is_waiting : Uuid → Uuid → Payment → Bool
is_waiting tenant visit p =
    is_verifying p.status && (in_visit visit p.table_session_id && p.tenant_id == tenant)

abbrev claim_row : MutationContext → NewPaymentClaim → Uuid → Payment
claim_row context c id = record {
  id = id;
  tenant_id = c.tenant_id;
  outlet_id = c.outlet_id;
  register_session_id = none;
  method = c.method;
  amount_minor = c.amount_minor;
  tendered_minor = none;
  status = PaymentStatus.verifying;
  reference = none;
  actor_id = none;
  confirmed_by = none;
  confirmed_at = none;
  created_at = context.now;
  idempotency_key = c.idempotency_key;
  table_session_id = some c.table_session_id;
}

-- A visit waits on one claim at a time: the second unique index of `billing_payments`.
unfoldable claim_transaction : MutationContext → NewPaymentClaim → Action PaymentClaimRecord
unfolding ensure_visit_orders
claim_transaction context c = do
  ensure_visit_orders c.tenant_id c.outlet_id c.table_session_id c.order_ids
  waits ← gets (λ db. any (is_waiting c.tenant_id c.table_session_id) db.payments)
  throw_if waits unique_violation
  row ← create_payment (claim_row context c)
  audit (record {
    action = AuditAction.payment_claim;
    actor_id = none;
    entity_id = row.id;
    outlet_id = c.outlet_id;
    tenant_id = c.tenant_id;
  })
  emit (record {
    type = EventType.payment_claimed;
    aggregate_id = row.id;
    outlet_id = c.outlet_id;
    tenant_id = c.tenant_id;
  })
  pure (to_claim row)

abbrev claim_or : Option Payment → Action PaymentClaimRecord → Action PaymentClaimRecord
claim_or (some row) otherwise = pure (to_claim row)
claim_or none otherwise = otherwise

unfoldable pub claim_payment : MutationContext → NewPaymentClaim → Action PaymentClaimRecord
unfolding claim_transaction
claim_payment context c = do
  existing ← gets (λ db. find (is_waiting c.tenant_id c.table_session_id) db.payments)
  claim_or existing (
      catch_unique (transaction (claim_transaction context c)) (do
        now ← gets (λ db. find (is_waiting c.tenant_id c.table_session_id) db.payments)
        same ← gets (λ db. find (has_key c.tenant_id c.outlet_id c.idempotency_key) db.payments)
        claim_or now (claim_or same (throw unique_violation))))

abbrev is_claim : Uuid → Uuid → Uuid → Payment → Bool
is_claim tenant outlet id p =
    p.id == id
    && (p.outlet_id == outlet && (is_in_visit p.table_session_id && p.tenant_id == tenant))
  where
    is_in_visit : Option Uuid → Bool
    is_in_visit none = Bool.false
    is_in_visit (some _) = Bool.true

unfoldable pub find_claim : Uuid → Uuid → Uuid → Db → Option PaymentClaimRecord
find_claim tenant outlet id db = elim (find (is_claim tenant outlet id) db.payments) [
  | none ↦ none
  | some row ↦ some (to_claim row)
]

unfoldable verifying_claims : Uuid → Uuid → Db → List PaymentClaimRecord
verifying_claims tenant outlet db = map to_claim (
    filter
      (λ (p : Payment). p.outlet_id == outlet && (is_verifying p.status && p.tenant_id == tenant))
      db.payments)

abbrev is_undecided : Uuid → Uuid → Uuid → Payment → Bool
is_undecided tenant outlet id p =
    p.id == id && (p.outlet_id == outlet && (is_verifying p.status && p.tenant_id == tenant))

abbrev as_failed : MutationContext → Payment → Payment
as_failed context p = record p {
  confirmed_at = some context.now;
  confirmed_by = some context.actor_id;
  status = PaymentStatus.failed;
}

unfoldable pub reject_claim :
    Uuid → Uuid → Uuid → MutationContext → Action (Option PaymentClaimRecord)
reject_claim tenant outlet id context = transaction (do
  changed ← gets (λ db. count_where (is_undecided tenant outlet id) db.payments)
  modify (λ db. record db {
    payments = update_many (is_undecided tenant outlet id) (as_failed context) db.payments;
  })
  if not (changed == 1) then pure none else (do
    row ←
        or_throw
          (← gets (λ db. find (λ (p : Payment). p.id == id && p.tenant_id == tenant) db.payments))
          record_not_found
    audit (record {
      action = AuditAction.payment_claim_reject;
      actor_id = some context.actor_id;
      entity_id = row.id;
      outlet_id = outlet;
      tenant_id = tenant;
    })
    emit (record {
      type = EventType.payment_claim_rejected;
      aggregate_id = row.id;
      outlet_id = outlet;
      tenant_id = tenant;
    })
    pure (some (to_claim row))))
