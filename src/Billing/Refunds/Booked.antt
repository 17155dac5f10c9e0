-- ===== src/Billing/Refunds/Booked.antt =====
-- What a refund writes (`recordRefund`): either one refund and the sale's status, or nothing.
use merchant_operations_plat.Prelude.{
  ◌≡◌, ◌⊎◌, inl, inr, refl, ap, ◌∙◌, ◌&&◌, Option, none, some, [], ◌∷◌, ◌++◌, Uuid, ok, find, any,
  arith, ◌==◌, Bool-cases, Option-cases,
}
use merchant_operations_plat.Prelude.Int.{ℤ, ◌-ℤ◌, ◌≤ℤ◌, ltb_ℤ}
use merchant_operations_plat.Database.{Db, Sale, Refund}
use merchant_operations_plat.Database.Tables.{update_many, count_where}
use merchant_operations_plat.Database.Action.{Action, gets, ◌>>=◌}
use merchant_operations_plat.Database.Transactions.{catch_unique-cases}
use merchant_operations_plat.Billing.{ReplayedRefund, MutationContext, NewRefund, RefundOutcome}
use merchant_operations_plat.Billing.Store.{
  is_open_shift, sale_by_id, refunds_of_sale, sum_refunds, find_refund_by_idempotency_key,
}
use merchant_operations_plat.Billing.Refunds.{
  refund_row, with_status, status_after, book_refund, refund_transaction, replay_refund,
  record_refund,
}

-- What the refunds of a sale add up to.
abbrev pub refunded : Uuid → Uuid → Db → ℤ
refunded tenant sale db = sum_refunds (refunds_of_sale tenant sale db)

abbrev pub Writes : MutationContext → NewRefund → ℤ → Db → Db → Type 0
Writes context r refundable db db' =
    (db'.refunds ≡ db.refunds ++ refund_row context r db.next_id ∷ [])
    × (db'.sales
        ≡ update_many (sale_by_id r.tenant_id r.sale_id)
            (with_status (status_after r.amount_minor refundable)) db.sales)

book_refund-Writes :
    (context : MutationContext) (r : NewRefund) (refundable : ℤ) (db : Db) {out : RefundOutcome}
    {db' : Db}
    → book_refund context r refundable db ≡ (ok out, db')
    → Writes context r refundable db db'
unfolding book_refund
book_refund-Writes context r refundable db {out} {db'} e =
    let taken =
      any
        (λ (x : Refund).
          x.idempotency_key == r.idempotency_key
          && (x.outlet_id == r.outlet_id && x.tenant_id == r.tenant_id))
        db.refunds in
    let updated = find (sale_by_id r.tenant_id r.sale_id) (
      update_many (sale_by_id r.tenant_id r.sale_id)
        (with_status (status_after r.amount_minor refundable)) db.sales) in
    elim (Bool-cases taken) [
      | inl t ↦ absurd (ground arith)
      | inr t ↦ elim (Option-cases updated) [
        | inl n ↦ absurd (ground arith)
        | inr (s, n) ↦ ground arith
      ]
    ]

-- The sale that is refunded, and how much of it may still be.
abbrev pub Booked : MutationContext → NewRefund → Db → Db → Type 0
Booked context r db db' =
    (sale : Sale) × (find (sale_by_id r.tenant_id r.sale_id) db.sales ≡ some sale)
    × (r.amount_minor ≤ℤ sale.total_minor -ℤ refunded r.tenant_id r.sale_id db)
    × Writes context r (sale.total_minor -ℤ refunded r.tenant_id r.sale_id db) db db'

refund_transaction-Booked :
    (context : MutationContext) (r : NewRefund) (db : Db) {out : RefundOutcome} {db' : Db}
    → refund_transaction context r db ≡ (ok out, db')
    → Booked context r db db' ⊎ (db' ≡ db)
unfolding refund_transaction
refund_transaction-Booked context r db {out} {db'} e =
    elim (Bool-cases (
      count_where (is_open_shift r.tenant_id r.outlet_id r.register_session_id) db.register_sessions
      == 1)) [
        | inl open_shift ↦ elim (Option-cases (find (sale_by_id r.tenant_id r.sale_id) db.sales)) [
          | inl n ↦ absurd (ground arith)
          | inr (s, f) ↦
              elim (Bool-cases
                (ltb_ℤ (s.total_minor -ℤ refunded r.tenant_id r.sale_id db) r.amount_minor)) [
                  | inl over ↦ inr (ground arith)
                  | inr within ↦
                      let refundable = s.total_minor -ℤ refunded r.tenant_id r.sale_id db in
                      let booked : book_refund context r refundable db ≡ (ok out, db') =
                        ground arith in
                      inl (s, f, ground arith, book_refund-Writes context r refundable db booked)
                ]
        ]
        | inr shut ↦ inr (ground arith)
      ]

replay_refund_reads : (o : Option ReplayedRefund) (db : Db) → (replay_refund o db).1 ≡ db
replay_refund_reads none db = refl
replay_refund_reads (some x) db = refl

-- Whatever a refund answers, either it is one refund within what is left of its sale, or nothing
-- was written.
pub record_refund-Booked :
    (context : MutationContext) (r : NewRefund) (db : Db)
    → let db' = (record_refund context r db).1 in Booked context r db db' ⊎ (db' ≡ db)
unfolding record_refund
record_refund-Booked context r db =
    let handler : Action RefundOutcome =
      gets (find_refund_by_idempotency_key r.tenant_id r.outlet_id r.idempotency_key)
      >>= replay_refund in
    elim (catch_unique-cases (refund_transaction context r) handler db) [
      | inl (out, db', e, h) ↦ rw h (refund_transaction-Booked context r db e)
      | inr (inl h) ↦ inr (ap (λ x. x.1) h ∙ replay_refund_reads _ db)
      | inr (inr (e, h)) ↦ inr (ap (λ x. x.1) h)
    ]
