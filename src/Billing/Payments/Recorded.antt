-- ===== src/Billing/Payments/Recorded.antt =====
-- What a full payment comes to, whatever it answers (`recordFullPayment`).
use merchant_operations_plat.Prelude.{
  suc, ◌≤◌, ◌≡◌, ◌⊎◌, inl, inr, refl, subst, ap, sym, ◌∙◌, true, false, ◌&&◌, some, [], ◌∷◌, ◌++◌,
  Uuid, Result, ok, find, arith, ◌==◌, ==_iff, ==_refl, Option-cases,
}
use merchant_operations_plat.Prelude.Int.{ℤ, ◌==ℤ◌, ==ℤ_iff}
use merchant_operations_plat.Contracts.Billing.{BillStatus}
use merchant_operations_plat.Database.{Db, Bill}
use merchant_operations_plat.Database.Tables.{
  update_many, find-update_many_other, find-append_other, count_where, find_holds, count_where_le,
  count_where-append, find-append_none, find-none, find_unique,
}
use merchant_operations_plat.Database.Faults.{Fault}
use merchant_operations_plat.Database.Action.{Action, gets}
use merchant_operations_plat.Database.Transactions.{catch_unique-cases}
use merchant_operations_plat.Billing.{
  MutationContext, CheckoutRecord, FullPayment, FullPaymentOutcome,
}
use merchant_operations_plat.Billing.Store.{
  bill_by_id, bill_of_order, find_checkout_by_idempotency_key,
}
use merchant_operations_plat.Billing.Writes.{new_bill, is_settleable}
use merchant_operations_plat.Billing.Payments.{
  header_of, bill_line_of, as_paid, settle_and_book, pay_bill, full_payment_transaction,
  replay_outcome, record_full_payment,
}
use merchant_operations_plat.Billing.Payments.Keyed.{IsKeyed, Settled-IsKeyed, made-IsKeyed}
use merchant_operations_plat.Billing.Payments.Guards.{full_payment_transaction-cases}
use merchant_operations_plat.Billing.Payments.Settled.{share_of, Settled, settle_and_book-Settled}

-- The order's bill is paid in full and stored so, every other bill is as it was, and there are one
-- payment, one share of it and one sale more, all for the total that was asked.
abbrev pub Recorded : FullPayment → CheckoutRecord → Db → Db → Type 0
Recorded p c db db' =
    (c.bill.order_id ≡ p.order_id)
    × (c.bill.total_minor ≡ p.total_minor)
    × (c.bill.paid_minor ≡ p.total_minor)
    × (c.bill.status ≡ BillStatus.paid)
    × (c.payment.amount_minor ≡ p.total_minor)
    × (c.payment.idempotency_key ≡ p.idempotency_key)
    × (c.sale.total_minor ≡ p.total_minor)
    × (c.sale.bill_id ≡ c.bill.id)
    × (db'.payments ≡ db.payments ++ c.payment ∷ [])
    × (db'.allocations
        ≡ db.allocations ++ share_of p.tenant_id c.payment.id c.bill.id p.total_minor ∷ [])
    × (db'.sales ≡ db.sales ++ c.sale ∷ [])
    × (find (bill_by_id p.tenant_id c.bill.id) db'.bills ≡ some c.bill)
    × ((tenant id : Uuid)
        → bill_by_id tenant id c.bill ≡ false
        → find (bill_by_id tenant id) db'.bills ≡ find (bill_by_id tenant id) db.bills)

-- Where a bill is settled, the others stay as they were.
others_lem :
    (p : FullPayment) (bill_id tenant id : Uuid) (before : Bill) (db : Db)
    → is_settleable p.tenant_id bill_id p.total_minor before ≡ true
    → bill_by_id tenant id before ≡ false
    → find
        (bill_by_id tenant id)
        (update_many (is_settleable p.tenant_id bill_id p.total_minor) (as_paid p) db.bills)
      ≡ find (bill_by_id tenant id) db.bills
others_lem p bill_id tenant id before db fits other =
    find-update_many_other (bill_by_id tenant id) (is_settleable p.tenant_id bill_id p.total_minor)
      (as_paid p) db.bills (λ x. refl) (λ x h. ground arith)

Settled-Recorded :
    (context : MutationContext) (p : FullPayment) (c : CheckoutRecord) (bill_id : Uuid)
    (before : Bill) (db0 db db' : Db)
    → before.order_id ≡ p.order_id
    → is_settleable p.tenant_id bill_id p.total_minor before ≡ true
    → c.bill ≡ as_paid p before
    → Settled context p c bill_id db db'
    → db.payments ≡ db0.payments
    → db.allocations ≡ db0.allocations
    → db.sales ≡ db0.sales
    → ((tenant id : Uuid)
        → bill_by_id tenant id before ≡ false
        → find (bill_by_id tenant id) db.bills ≡ find (bill_by_id tenant id) db0.bills)
    → Recorded p c db0 db'
Settled-Recorded context p c bill_id before db0 db db' order fits paid
      (row, total, of_bill, payments, sales, bills, later, shares, stored) e1 e2 e3 kept =
    let same_total : before.total_minor ≡ p.total_minor = (==ℤ_iff _ _).0 (ground arith) in
    let same_id : before.id ≡ bill_id = ground arith in
    let own : c.bill.id ≡ bill_id = ap (λ b. b.id) paid ∙ same_id in
    let at : find (bill_by_id p.tenant_id c.bill.id) db'.bills ≡ some c.bill =
      subst (λ i. find (bill_by_id p.tenant_id i) db'.bills ≡ some c.bill) (sym own) stored in
    let others : (tenant id : Uuid)
        → bill_by_id tenant id c.bill ≡ false
        → find (bill_by_id tenant id) db'.bills ≡ find (bill_by_id tenant id) db0.bills =
      λ tenant id h.
        let other : bill_by_id tenant id before ≡ false =
          ap (bill_by_id tenant id) (sym paid) ∙ h in
        ap (find (bill_by_id tenant id)) bills
        ∙ others_lem p bill_id tenant id before db fits other
        ∙ kept tenant id other in
    (
      ap (λ b. b.order_id) paid ∙ order,
      ap (λ b. b.total_minor) paid ∙ same_total,
      ap (λ b. b.paid_minor) paid,
      ap (λ b. b.status) paid,
      ap (λ x. x.amount_minor) row,
      ap (λ x. x.idempotency_key) row,
      total,
      of_bill ∙ sym own,
      payments ∙ ap (λ x. x ++ c.payment ∷ []) e1,
      subst
          (λ i.
            db'.allocations
            ≡ db0.allocations ++ share_of p.tenant_id c.payment.id i p.total_minor ∷ [])
          (sym own)
          (shares ∙ ap (λ x. x ++ share_of p.tenant_id c.payment.id bill_id p.total_minor ∷ []) e2),
      sales ∙ ap (λ x. x ++ c.sale ∷ []) e3,
      at,
      others,
    )

abbrev Outcome : FullPayment → FullPaymentOutcome → Db → Db → Type 0
Outcome p out db db' =
    ((c : CheckoutRecord) × (out ≡ FullPaymentOutcome.recorded c)
      × Recorded p c db db'
      × IsKeyed db')
    ⊎ (db' ≡ db)

-- The bill was made before.
pay_existing :
    (context : MutationContext) (p : FullPayment) (b : Bill) (db : Db) {out : FullPaymentOutcome}
    {db' : Db}
    → IsKeyed db
    → find (bill_of_order p.tenant_id p.order_id) db.bills ≡ some b
    → settle_and_book context p b.id db ≡ (ok out, db')
    → Outcome p out db db'
pay_existing context p b db {out} {db'} keyed found e =
    elim (settle_and_book-Settled context p b.id db (keyed.unique p.tenant_id b.id) e) [
      | inr (_, same) ↦ inr same
      | inl (c, same, (before, at, fits, paid), settled) ↦
          let mine = find_holds (bill_of_order p.tenant_id p.order_id) db.bills found in
          let order : before.order_id ≡ p.order_id =
            ap (λ x. x.order_id)
              (sym (
                find_unique (bill_by_id p.tenant_id b.id) (bill_of_order p.tenant_id p.order_id)
                  db.bills {b = b} {x = before} (keyed.unique p.tenant_id b.id) found (ground arith)
                  at))
            ∙ (==_iff _ _).0 (ground arith) in
          inl (
            c,
            same,
            Settled-Recorded context p c b.id before db db db' order fits paid settled refl refl
                refl (λ tenant id h. refl),
            Settled-IsKeyed context p c b.id db db' keyed settled,
          )
    ]

some_injective : {x y : Bill} → some x ≡ some y → x ≡ y
some_injective h = ground arith

pub own_fits :
    (tenant id : Uuid) (total : ℤ)
    → ((id == id && tenant == tenant) && (true && total ==ℤ total)) ≡ true
own_fits tenant id total = rw (==_refl id) (rw (==_refl tenant) ((==ℤ_iff total total).1 refl))

-- The bill is made first.
pay_new :
    (context : MutationContext) (p : FullPayment) (db : Db) {out : FullPaymentOutcome} {db' : Db}
    → IsKeyed db
    → let made = record db {
      next_id = suc db.next_id;
      bills = db.bills ++ new_bill (header_of p) (bill_line_of p) db.next_id ∷ [];
    } in
      settle_and_book context p db.next_id made ≡ (ok out, db') → Outcome p out db db'
pay_new context p db {out} {db'} keyed e =
    let bill = new_bill (header_of p) (bill_line_of p) db.next_id in
    let made = record db { next_id = suc db.next_id; bills = db.bills ++ bill ∷ [] } in
    let key = bill_by_id p.tenant_id db.next_id in
    let free = keyed.fresh p.tenant_id db.next_id (omega arith) in
    let one : count_where key made.bills ≤ 1 =
      ground (arith, count_where-append key db.bills bill) in
    elim (settle_and_book-Settled context p db.next_id made one e) [
      | inr (unfit, _) ↦
          let fits = is_settleable p.tenant_id db.next_id p.total_minor in
          let fresh = count_where_le fits key db.bills (λ y h. ground arith) in
          let own : fits bill ≡ true = own_fits p.tenant_id db.next_id p.total_minor in
          absurd (unfit (count_where-append fits db.bills bill ∙ rw own (ground arith)))
      | inl (c, same, (before, at, fits, paid), settled) ↦
          let new : before ≡ bill = some_injective (
            sym at
            ∙ find-append_none key db.bills (bill ∷ []) (find-none key db.bills free)
            ∙ rw (==_refl db.next_id) (rw (==_refl p.tenant_id) refl)) in
          inl (
            c,
            same,
            Settled-Recorded context p c db.next_id before db made db' (ap (λ b. b.order_id) new)
                fits paid settled refl refl refl
                (λ tenant id h.
                  find-append_other (bill_by_id tenant id) db.bills bill
                    (ap (bill_by_id tenant id) (sym new) ∙ h)),
            Settled-IsKeyed context p c db.next_id made db' (made-IsKeyed p db keyed) settled,
          )
    ]

pay_bill-Outcome :
    (context : MutationContext) (p : FullPayment) (db : Db) {out : FullPaymentOutcome} {db' : Db}
    → IsKeyed db
    → pay_bill context p db ≡ (ok out, db')
    → Outcome p out db db'
unfolding pay_bill
pay_bill-Outcome context p db {out} {db'} keyed e =
    elim (Option-cases (find (bill_of_order p.tenant_id p.order_id) db.bills)) [
      | inl n ↦ pay_new context p db keyed (ground arith)
      | inr (b, f) ↦ pay_existing context p b db keyed f (ground arith)
    ]

full_payment_transaction-Outcome :
    (context : MutationContext) (p : FullPayment) (db : Db) {out : FullPaymentOutcome} {db' : Db}
    → IsKeyed db
    → full_payment_transaction context p db ≡ (ok out, db')
    → Outcome p out db db'
full_payment_transaction-Outcome context p db keyed e =
    elim (full_payment_transaction-cases context p db e) [
      | inl (_, paid) ↦ pay_bill-Outcome context p db keyed paid
      | inr same ↦ inr same
    ]

lift :
    (p : FullPayment) {out : FullPaymentOutcome} {db db' : Db}
    → Outcome p out db db'
    → ((c : CheckoutRecord) × (◌≡◌ {A = Result Fault FullPaymentOutcome}
          (ok out)
          (ok (FullPaymentOutcome.recorded c)))
        × Recorded p c db db'
        × IsKeyed db')
      ⊎ (db' ≡ db)
lift p (inl (c, e, r, k)) = inl (c, ap ok e, r, k)
lift p (inr same) = inr same

-- Whatever a payment answers, with the bills keyed by their identifiers: either it is recorded in
-- full, the bill stored as paid and every other bill as it was, the payment, its share and the sale
-- all for the asked total, or nothing was written.
pub record_full_payment-Outcome :
    (context : MutationContext) (p : FullPayment) (db : Db)
    → IsKeyed db
    → let (out, db') = record_full_payment context p db in
      ((c : CheckoutRecord) × (out ≡ ok (FullPaymentOutcome.recorded c))
        × Recorded p c db db'
        × IsKeyed db')
      ⊎ (db' ≡ db)
unfolding record_full_payment
record_full_payment-Outcome context p db keyed =
    let handler : Action FullPaymentOutcome = gets (λ db.
      replay_outcome
        (find_checkout_by_idempotency_key p.tenant_id p.outlet_id p.idempotency_key db)) in
    elim (catch_unique-cases (full_payment_transaction context p) handler db) [
      | inl (out, db', e, h) ↦ rw h (lift p (full_payment_transaction-Outcome context p db keyed e))
      | inr (inl h) ↦ inr (ap (λ x. x.1) h)
      | inr (inr (e, h)) ↦ inr (ap (λ x. x.1) h)
    ]

-- Whatever a payment answers, the bills stay keyed by their identifiers.
pub record_full_payment-IsKeyed :
    (context : MutationContext) (p : FullPayment) (db : Db)
    → IsKeyed db
    → IsKeyed (record_full_payment context p db).1
record_full_payment-IsKeyed context p db keyed =
    elim (record_full_payment-Outcome context p db keyed) [
      | inl (_, _, _, k) ↦ k
      | inr same ↦ subst IsKeyed (sym same) keyed
    ]
