-- ===== src/Billing/Payments/Guards.antt =====
-- What must hold for a full payment to be taken (`recordFullPayment`).
use merchant_operations_plat.Prelude.{
  ◌≡◌, ◌≢◌, ◌⊎◌, inl, inr, ap, sym, ◌∙◌, true, false, some, ok, find, arith, ◌==◌, Bool-cases,
  Option-cases,
}
use merchant_operations_plat.Contracts.Orders.{is_order_approved}
use merchant_operations_plat.Contracts.Billing.{is_bill_unpaid}
use merchant_operations_plat.Database.{Db, Order, Bill}
use merchant_operations_plat.Database.Tables.{count_where, find_holds, find_unique}
use merchant_operations_plat.Database.Action.{Action, gets}
use merchant_operations_plat.Database.Transactions.{catch_unique-cases}
use merchant_operations_plat.Billing.{MutationContext, FullPayment, FullPaymentOutcome}
use merchant_operations_plat.Billing.Store.{
  is_open_shift, bill_by_id, bill_of_order, find_checkout_by_idempotency_key,
}
use merchant_operations_plat.Billing.Payments.{
  is_payable, order_by_id, settle_and_book, pay_bill, full_payment_transaction, replay_outcome,
  record_full_payment,
}
use merchant_operations_plat.Billing.Payments.Keyed.{IsKeyed}
use merchant_operations_plat.Billing.Payments.Settled.{settle_and_book-Settled}

-- The shift is open, and the order is there, not canceled and approved.
abbrev pub Allowed : FullPayment → Db → Type 0
Allowed p db =
    (count_where (is_open_shift p.tenant_id p.outlet_id p.register_session_id) db.register_sessions
      ≡ 1)
    × (count_where (is_payable p.tenant_id p.outlet_id p.order_id) db.orders ≡ 1)
    × (o : Order) × (find (order_by_id p.tenant_id p.outlet_id p.order_id) db.orders ≡ some o)
    × (is_order_approved o.moderation_status ≡ true)

pub full_payment_transaction-cases :
    (context : MutationContext) (p : FullPayment) (db : Db) {out : FullPaymentOutcome} {db' : Db}
    → full_payment_transaction context p db ≡ (ok out, db')
    → Allowed p db × (pay_bill context p db ≡ (ok out, db')) ⊎ (db' ≡ db)
unfolding full_payment_transaction
full_payment_transaction-cases context p db {out} {db'} e =
    elim (Bool-cases (
      count_where (is_open_shift p.tenant_id p.outlet_id p.register_session_id) db.register_sessions
      == 1)) [
        | inr shut ↦ inr (ground arith)
        | inl on ↦
            elim (Bool-cases
              (count_where (is_payable p.tenant_id p.outlet_id p.order_id) db.orders == 1)) [
                | inr gone ↦ inr (ground arith)
                | inl live ↦
                    elim (Option-cases
                      (find (order_by_id p.tenant_id p.outlet_id p.order_id) db.orders)) [
                        | inl n ↦ absurd (ground arith)
                        | inr (o, f) ↦ elim (Bool-cases (is_order_approved o.moderation_status)) [
                          | inr waits ↦ absurd (ground arith)
                          | inl approved ↦
                              inl ((ground arith, ground arith, o, f, approved), ground arith)
                        ]
                      ]
              ]
      ]

-- A payment writes only in an open shift, for an order that is there, not canceled and approved.
pub record_full_payment-Allowed :
    (context : MutationContext) (p : FullPayment) (db : Db)
    → Allowed p db ⊎ ((record_full_payment context p db).1 ≡ db)
unfolding record_full_payment
record_full_payment-Allowed context p db =
    let handler : Action FullPaymentOutcome = gets (λ db.
      replay_outcome
        (find_checkout_by_idempotency_key p.tenant_id p.outlet_id p.idempotency_key db)) in
    elim (catch_unique-cases (full_payment_transaction context p) handler db) [
      | inl (out, db', e, h) ↦ elim (full_payment_transaction-cases context p db e) [
        | inl (allowed, _) ↦ inl allowed
        | inr same ↦ inr (ap (λ x. x.1) h ∙ same)
      ]
      | inr (inl h) ↦ inr (ap (λ x. x.1) h)
      | inr (inr (e, h)) ↦ inr (ap (λ x. x.1) h)
    ]

true_or_false : true ≢ false
true_or_false h = cc

-- The bill of the order was paid or voided before.
pay_bill_settled :
    (context : MutationContext) (p : FullPayment) (b : Bill) (db : Db) {out : FullPaymentOutcome}
    {db' : Db}
    → IsKeyed db
    → find (bill_of_order p.tenant_id p.order_id) db.bills ≡ some b
    → is_bill_unpaid b.status ≡ false
    → pay_bill context p db ≡ (ok out, db')
    → db' ≡ db
unfolding pay_bill
pay_bill_settled context p b db {out} {db'} keyed found settled e =
    let booked : settle_and_book context p b.id db ≡ (ok out, db') = ground arith in
    elim (settle_and_book-Settled context p b.id db (keyed.unique p.tenant_id b.id) booked) [
      | inr (_, same) ↦ same
      | inl (c, _, (before, at, fits, _), _) ↦
          let mine = find_holds (bill_of_order p.tenant_id p.order_id) db.bills found in
          let same : b ≡ before =
            find_unique (bill_by_id p.tenant_id b.id) (bill_of_order p.tenant_id p.order_id)
              db.bills {b = b} {x = before} (keyed.unique p.tenant_id b.id) found (ground arith)
              at in
          let unpaid : is_bill_unpaid before.status ≡ true = ground arith in
          absurd
            (true_or_false (sym unpaid ∙ ap (λ x. is_bill_unpaid x.status) (sym same) ∙ settled))
    ]

-- An order is paid once: where its bill is no longer unpaid, a payment writes nothing.
pub record_full_payment_once :
    (context : MutationContext) (p : FullPayment) (b : Bill) (db : Db)
    → IsKeyed db
    → find (bill_of_order p.tenant_id p.order_id) db.bills ≡ some b
    → is_bill_unpaid b.status ≡ false
    → (record_full_payment context p db).1 ≡ db
unfolding record_full_payment
record_full_payment_once context p b db keyed found settled =
    let handler : Action FullPaymentOutcome = gets (λ db.
      replay_outcome
        (find_checkout_by_idempotency_key p.tenant_id p.outlet_id p.idempotency_key db)) in
    elim (catch_unique-cases (full_payment_transaction context p) handler db) [
      | inl (out, db', e, h) ↦ elim (full_payment_transaction-cases context p db e) [
        | inl (_, paid) ↦ ap (λ x. x.1) h ∙ pay_bill_settled context p b db keyed found settled paid
        | inr same ↦ ap (λ x. x.1) h ∙ same
      ]
      | inr (inl h) ↦ ap (λ x. x.1) h
      | inr (inr (e, h)) ↦ ap (λ x. x.1) h
    ]
