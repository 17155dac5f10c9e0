-- ===== src/Billing/Payments/Settled.antt =====
-- What a full payment writes (`recordFullPayment`): the paid bill, the payment, its allocation and
-- the sale, all for one total, or nothing.
use merchant_operations_plat.Prelude.{
  suc, ◌≤◌, ◌≡◌, ◌≢◌, ◌⊎◌, inl, inr, refl, ap, ◌∙◌, true, some, [], ◌∷◌, ◌++◌, Uuid, ok, find, any,
  arith, ◌==◌, Bool-cases, Option-cases, Result-cases, if◌then◌else◌,
}
use merchant_operations_plat.Prelude.Int.{ℤ}
use merchant_operations_plat.Database.{Db, Bill, Payment, Sale, Allocation}
use merchant_operations_plat.Database.Tables.{
  update_many, count_where, update_many_none, count_where_le, find-count_where, find-update_many,
}
use merchant_operations_plat.Billing.{
  MutationContext, CheckoutRecord, FullPayment, FullPaymentOutcome,
}
use merchant_operations_plat.Billing.Store.{has_key, bill_by_id}
use merchant_operations_plat.Billing.Writes.{is_settleable, complete_sale}
use merchant_operations_plat.Billing.Payments.{payment_row, as_paid, book_payment, settle_and_book}

abbrev pub share_of : Uuid → Uuid → Uuid → ℤ → Allocation
share_of tenant payment bill total = record {
  tenant_id = tenant;
  payment_id = payment;
  bill_id = bill;
  amount_minor = total;
}

-- The sale of a bill, for a total, and the payment's share of that bill.
abbrev Sold : Uuid → ℤ → Payment → Uuid → Bill → Sale → Db → Db → Type 0
Sold tenant total paid bill_id bill sale db db' =
    (find (bill_by_id tenant bill_id) db.bills ≡ some bill)
    × (sale.total_minor ≡ total)
    × (sale.bill_id ≡ bill_id)
    × (db'.bills ≡ db.bills)
    × (db'.payments ≡ db.payments)
    × (db'.allocations ≡ db.allocations ++ share_of tenant paid.id bill_id total ∷ [])
    × (db'.sales ≡ db.sales ++ sale ∷ [])
    × (db.next_id ≤ db'.next_id)

complete_sale-Sold :
    (context : MutationContext) (tenant outlet : Uuid) (total : ℤ) (paid : Payment) (bill_id : Uuid)
    (db : Db) {bill : Bill} {sale : Sale} {db' : Db}
    → complete_sale context tenant outlet total paid bill_id db ≡ (ok (bill, sale), db')
    → Sold tenant total paid bill_id bill sale db db'
unfolding complete_sale
complete_sale-Sold context tenant outlet total paid bill_id db {bill} {sale} {db'} e =
    elim (Option-cases (find (bill_by_id tenant bill_id) db.bills)) [
      | inl n ↦ absurd (ground arith)
      | inr (b, f) ↦ ground arith
    ]

-- The payment, its share and the sale, once the bill is settled.
abbrev pub Booked : MutationContext → FullPayment → CheckoutRecord → Uuid → Db → Db → Type 0
Booked context p c bill_id db db' =
    (c.payment ≡ payment_row context p db.next_id)
    × (find (bill_by_id p.tenant_id bill_id) db.bills ≡ some c.bill)
    × (c.sale.total_minor ≡ p.total_minor)
    × (c.sale.bill_id ≡ bill_id)
    × (db'.payments ≡ db.payments ++ c.payment ∷ [])
    × (db'.sales ≡ db.sales ++ c.sale ∷ [])
    × (db'.bills ≡ db.bills)
    × (db.next_id ≤ db'.next_id)
    × (db'.allocations
        ≡ db.allocations ++ share_of p.tenant_id c.payment.id bill_id p.total_minor ∷ [])

book_payment-Booked :
    (context : MutationContext) (p : FullPayment) (bill_id : Uuid) (db : Db)
    {out : FullPaymentOutcome} {db' : Db}
    → book_payment context p bill_id db ≡ (ok out, db')
    → (c : CheckoutRecord) × (out ≡ FullPaymentOutcome.recorded c)
      × Booked context p c bill_id db db'
unfolding book_payment
book_payment-Booked context p bill_id db {out} {db'} e =
    let row = payment_row context p db.next_id in
    let between = record db { next_id = suc db.next_id; payments = db.payments ++ row ∷ [] } in
    let last = complete_sale context p.tenant_id p.outlet_id p.total_minor row bill_id between in
    elim (Bool-cases (any (has_key p.tenant_id p.outlet_id p.idempotency_key) db.payments)) [
      | inl taken ↦ absurd (ground arith)
      | inr free ↦ elim (Result-cases last.0) [
        | inr (f, g) ↦ absurd (ground arith)
        | inl ((bill, sale), g) ↦
            let done : complete_sale context p.tenant_id p.outlet_id p.total_minor row bill_id
                  between
                ≡ (ok (bill, sale), last.1) =
              ground arith in
            let sold =
              complete_sale-Sold context p.tenant_id p.outlet_id p.total_minor row bill_id between
                done in
            (record { bill = bill; payment = row; sale = sale }, ground arith, ground arith)
      ]
    ]

-- The bill that is paid: it was unpaid, it had the expected total, and now it is paid in full.
abbrev PaidBill : FullPayment → Uuid → Bill → Db → Type 0
PaidBill p bill_id bill db =
    (before : Bill) × (find (bill_by_id p.tenant_id bill_id) db.bills ≡ some before)
    × (is_settleable p.tenant_id bill_id p.total_minor before ≡ true)
    × (bill ≡ as_paid p before)

abbrev pub Settled : MutationContext → FullPayment → CheckoutRecord → Uuid → Db → Db → Type 0
Settled context p c bill_id db db' =
    (c.payment ≡ payment_row context p db.next_id)
    × (c.sale.total_minor ≡ p.total_minor)
    × (c.sale.bill_id ≡ bill_id)
    × (db'.payments ≡ db.payments ++ c.payment ∷ [])
    × (db'.sales ≡ db.sales ++ c.sale ∷ [])
    × (db'.bills
        ≡ update_many (is_settleable p.tenant_id bill_id p.total_minor) (as_paid p) db.bills)
    × (db.next_id ≤ db'.next_id)
    × (db'.allocations
        ≡ db.allocations ++ share_of p.tenant_id c.payment.id bill_id p.total_minor ∷ [])
    × (find (bill_by_id p.tenant_id bill_id) db'.bills ≡ some c.bill)

pub settle_and_book-Settled :
    (context : MutationContext) (p : FullPayment) (bill_id : Uuid) (db : Db)
    {out : FullPaymentOutcome} {db' : Db}
    → count_where (bill_by_id p.tenant_id bill_id) db.bills ≤ 1
    → settle_and_book context p bill_id db ≡ (ok out, db')
    → ((c : CheckoutRecord) × (out ≡ FullPaymentOutcome.recorded c)
        × PaidBill p bill_id c.bill db
        × Settled context p c bill_id db db')
      ⊎ (count_where (is_settleable p.tenant_id bill_id p.total_minor) db.bills ≢ 1) × (db' ≡ db)
unfolding settle_and_book
settle_and_book-Settled context p bill_id db {out} {db'} unique e =
    let fits = is_settleable p.tenant_id bill_id p.total_minor in
    let key = bill_by_id p.tenant_id bill_id in
    let between = record db { bills = update_many fits (as_paid p) db.bills } in
    elim (Bool-cases (count_where fits db.bills == 1)) [
      | inr other ↦
          let most = count_where_le fits key db.bills (λ y h. ground arith) in
          let zero_fit : count_where fits db.bills ≡ 0 = ground arith in
          let kept = update_many_none fits (as_paid p) db.bills zero_fit in
          let wrote : db' ≡ between = ground arith in
          inr (ground arith, wrote ∙ ap (λ bs. record db { bills = bs }) kept)
      | inl one ↦
          let booked : book_payment context p bill_id between ≡ (ok out, db') = ground arith in
          let (c, same, b) = book_payment-Booked context p bill_id between booked in
          let (x, before, now) =
            find-update_many key fits (as_paid p) db.bills {y = c.bill} (λ y. refl) b.1 in
          let fit : fits x ≡ true =
            find-count_where fits key db.bills {x = x} (λ y h. ground arith) unique (ground arith)
              before in
          let paid : c.bill ≡ as_paid p x = now ∙ ap (λ t. if t then as_paid p x else x) fit in
          inl (c, same, (x, before, fit, paid), ground arith)
    ]
