-- ===== src/Billing/Claims/Waiting.antt =====
-- The claims of a visit: one waits at a time, and only a waiting one is rejected (`claimPayment`,
-- `rejectClaim`).
use merchant_operations_plat.Prelude.{
  ◌≤◌, ◌≡◌, ◌⊎◌, inl, inr, refl, ap, subst, sym, ◌∙◌, true, false, ◌&&◌, Option, none, some, List,
  [], ◌∷◌, ◌++◌, Uuid, ok, find, any, arith, ◌==◌, Bool-cases, Option-cases, Result-cases,
}
use merchant_operations_plat.Contracts.Billing.{PaymentStatus, is_verifying}
use merchant_operations_plat.Database.{Db, Payment}
use merchant_operations_plat.Database.Tables.{
  Pairwise, update_many, count_where, count_where-append, count_where-any,
  count_where-update_many_le, update_many-Pairwise,
}
use merchant_operations_plat.Database.Faults.{unique_violation}
use merchant_operations_plat.Database.Action.{Action, gets, throw, ◌>>=◌, transaction, catch_unique}
use merchant_operations_plat.Database.Transactions.{catch_unique-cases}
use merchant_operations_plat.Billing.{MutationContext, NewPaymentClaim, PaymentClaimRecord}
use merchant_operations_plat.Billing.Store.{has_key, ensure_visit_orders}
use merchant_operations_plat.Billing.Claims.{
  is_waiting, claim_row, claim_transaction, claim_or, claim_payment, is_undecided, as_failed,
  reject_claim,
}

-- A visit waits on at most one claim.
abbrev pub IsWaitingOnce : Db → Type 0
IsWaitingOnce db = (tenant visit : Uuid) → count_where (is_waiting tenant visit) db.payments ≤ 1

ensure_visit_orders_reads :
    (c : NewPaymentClaim) (db : Db)
    → (ensure_visit_orders c.tenant_id c.outlet_id c.table_session_id c.order_ids db).1 ≡ db
unfolding ensure_visit_orders
ensure_visit_orders_reads c db = ground arith

claim_transaction_adds :
    (context : MutationContext) (c : NewPaymentClaim) (db : Db) {out : PaymentClaimRecord}
    {db' : Db}
    → claim_transaction context c db ≡ (ok out, db')
    → (any (is_waiting c.tenant_id c.table_session_id) db.payments ≡ false)
      × (db'.payments ≡ db.payments ++ claim_row context c db.next_id ∷ [])
unfolding claim_transaction
claim_transaction_adds context c db {out} {db'} e =
    let first = ensure_visit_orders c.tenant_id c.outlet_id c.table_session_id c.order_ids db in
    let same = ensure_visit_orders_reads c db in
    elim (Result-cases first.0) [
      | inr (f, g) ↦ absurd (ground arith)
      | inl (u, g) ↦
          elim (Bool-cases (any (is_waiting c.tenant_id c.table_session_id) db.payments)) [
            | inl waits ↦ absurd (ground arith)
            | inr free ↦
                elim (Bool-cases
                  (any (has_key c.tenant_id c.outlet_id c.idempotency_key) db.payments)) [
                    | inl taken ↦ absurd (ground arith)
                    | inr unused ↦ (free, ground arith)
                  ]
          ]
    ]

same_visit :
    (t v tenant visit : Uuid) (db : Db)
    → count_where (is_waiting tenant visit) db.payments ≡ 0
    → t ≡ tenant
    → v ≡ visit
    → count_where (is_waiting t v) db.payments ≡ 0
same_visit t v tenant visit db h e1 e2 = rw e1 (rw e2 h)

claim_transaction-IsWaitingOnce :
    (context : MutationContext) (c : NewPaymentClaim) (db : Db) {out : PaymentClaimRecord}
    {db' : Db}
    → IsWaitingOnce db
    → claim_transaction context c db ≡ (ok out, db')
    → IsWaitingOnce db'
claim_transaction-IsWaitingOnce context c db {out} {db'} once e t v =
    let (free, wrote) = claim_transaction_adds context c db e in
    let row = claim_row context c db.next_id in
    let idle = count_where-any (is_waiting c.tenant_id c.table_session_id) db.payments free in
    rw wrote (
      rw (count_where-append (is_waiting t v) db.payments row)
        (elim (Bool-cases (is_waiting t v row)) [
          | inr other ↦ rw other (omega (arith, once t v))
          | inl own ↦ rw own (
              omega (
                arith,
                same_visit t v c.tenant_id c.table_session_id db idle (ground arith) (ground arith),
              ))
        ]))

claim_or_reads :
    (a b : Option Payment) (db : Db) → (claim_or a (claim_or b (throw unique_violation)) db).1 ≡ db
claim_or_reads none none db = refl
claim_or_reads none (some x) db = refl
claim_or_reads (some x) b db = refl

-- Claiming a payment keeps every visit to at most one waiting claim.
pub claim_payment-IsWaitingOnce :
    (context : MutationContext) (c : NewPaymentClaim) (db : Db)
    → IsWaitingOnce db
    → IsWaitingOnce (claim_payment context c db).1
unfolding claim_payment
claim_payment-IsWaitingOnce context c db once =
    let waiting = is_waiting c.tenant_id c.table_session_id in
    let handler : Action PaymentClaimRecord = gets (λ db. find waiting db.payments) >>= λ now.
    gets (λ db. find (has_key c.tenant_id c.outlet_id c.idempotency_key) db.payments) >>= λ same.
    claim_or now (claim_or same (throw unique_violation)) in
    elim (Option-cases (find waiting db.payments)) [
      | inr (p, f) ↦
          let kept : (claim_payment context c db).1 ≡ db = rw f refl in
          subst IsWaitingOnce (sym kept) once
      | inl n ↦
          let tried : (claim_payment context c db).1
              ≡ (catch_unique (transaction (claim_transaction context c)) handler db).1 =
            rw n refl in
          subst IsWaitingOnce (sym tried)
            (elim (catch_unique-cases (claim_transaction context c) handler db) [
              | inl (out, db', e, h) ↦
                  subst IsWaitingOnce (sym (ap (λ x. x.1) h))
                    (claim_transaction-IsWaitingOnce context c db once e)
              | inr (inl h) ↦
                  subst IsWaitingOnce (sym (ap (λ x. x.1) h ∙ claim_or_reads _ _ db)) once
              | inr (inr (e, h)) ↦ subst IsWaitingOnce (sym (ap (λ x. x.1) h)) once
            ])
    ]

is_verifying_lem : (s : PaymentStatus) → is_verifying s ≡ true → s ≡ PaymentStatus.verifying
is_verifying_lem s h = ground arith

-- A payment stays as it is, or it is the claim that is named, which waited; now it has failed, with
-- who decided and when, and for the rest it is as it was.
abbrev pub Rejected : Uuid → Uuid → Uuid → MutationContext → Payment → Payment → Type 0
Rejected tenant outlet id context p p' =
    (p' ≡ p)
    ⊎ (p.id ≡ id)
      × (p.tenant_id ≡ tenant)
      × (p.outlet_id ≡ outlet)
      × (p.status ≡ PaymentStatus.verifying)
      × (p' ≡ record p {
        confirmed_at = some context.now;
        confirmed_by = some context.actor_id;
        status = PaymentStatus.failed;
      })

reject_claim_writes :
    (tenant outlet id : Uuid) (context : MutationContext) (db : Db)
    → let db' = (reject_claim tenant outlet id context db).1 in
      (db'.payments ≡ update_many (is_undecided tenant outlet id) (as_failed context) db.payments)
      ⊎ (db' ≡ db)
unfolding reject_claim
reject_claim_writes tenant outlet id context db =
    let written = update_many (is_undecided tenant outlet id) (as_failed context) db.payments in
    elim (Bool-cases (count_where (is_undecided tenant outlet id) db.payments == 1)) [
      | inr other ↦ inl (ground arith)
      | inl one ↦
          elim (Option-cases
            (find (λ (p : Payment). p.id == id && p.tenant_id == tenant) written)) [
              | inl n ↦ inr (ground arith)
              | inr (p, f) ↦ inl (ground arith)
            ]
    ]

Pairwise-refl :
    (tenant outlet id : Uuid) (context : MutationContext) (ps : List Payment)
    → Pairwise (Rejected tenant outlet id context) ps ps
Pairwise-refl tenant outlet id context [] = tt
Pairwise-refl tenant outlet id context (p ∷ ps) =
    (inl refl, Pairwise-refl tenant outlet id context ps)

-- Rejecting a claim touches no payment but the one that is named, and that only where it is a claim
-- that waits for its decision; then it has failed, with who decided and when.
pub reject_claim-Rejected :
    (tenant outlet id : Uuid) (context : MutationContext) (db : Db)
    → Pairwise
        (Rejected tenant outlet id context)
        db.payments
        (reject_claim tenant outlet id context db).1.payments
reject_claim-Rejected tenant outlet id context db =
    elim (reject_claim_writes tenant outlet id context db) [
      | inl wrote ↦ rw wrote (
          update_many-Pairwise (is_undecided tenant outlet id) (as_failed context)
            (Rejected tenant outlet id context) db.payments
            (λ p h. inr (
              ground arith,
              ground arith,
              ground arith,
              is_verifying_lem p.status (ground arith),
              refl,
            ))
            (λ p. inl refl))
      | inr same ↦ rw same (Pairwise-refl tenant outlet id context db.payments)
    ]

-- Rejecting a claim keeps every visit to at most one waiting claim.
pub reject_claim-IsWaitingOnce :
    (tenant outlet id : Uuid) (context : MutationContext) (db : Db)
    → IsWaitingOnce db
    → IsWaitingOnce (reject_claim tenant outlet id context db).1
reject_claim-IsWaitingOnce tenant outlet id context db once t v =
    elim (reject_claim_writes tenant outlet id context db) [
      | inr same ↦ rw same (once t v)
      | inl wrote ↦
          let fewer =
            count_where-update_many_le (is_waiting t v) (is_undecided tenant outlet id)
              (as_failed context) db.payments (λ p h. absurd (ground arith)) in
          rw wrote (omega (arith, once t v, fewer))
    ]
