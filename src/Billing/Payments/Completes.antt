-- ===== src/Billing/Payments/Completes.antt =====
-- A full payment that is allowed is taken (`recordFullPayment`).
use merchant_operations_plat.Prelude.{
  suc, ◌≤◌, Option, ◌≡◌, ◌≢◌, inl, inr, refl, ap, ◌∙◌, Bool, true, false, none, some, List, [], ◌∷◌,
  ◌++◌, Uuid, ok, err, find, any, arith, Option-cases, Result-cases,
}
use merchant_operations_plat.Prelude.Int.{ℤ, pos, ◌+ℤ◌, ◌≤ℤ◌}
use merchant_operations_plat.Contracts.Billing.{PaymentMethod, cash}
use merchant_operations_plat.Database.{Db, Bill, Payment}
use merchant_operations_plat.Database.Tables.{
  update_many, count_where, count_where_le, count_where-append, count_where-update_many_same,
}
use merchant_operations_plat.Billing.{
  MutationContext, CheckoutRecord, FullPayment, FullPaymentOutcome,
}
use merchant_operations_plat.Billing.Store.{has_key, bill_by_id, bill_of_order}
use merchant_operations_plat.Billing.Writes.{new_bill, is_settleable, complete_sale}
use merchant_operations_plat.Billing.Payments.{
  header_of, bill_line_of, payment_row, as_paid, book_payment, settle_and_book, pay_bill,
  full_payment_transaction, record_full_payment,
}
use merchant_operations_plat.Billing.Payments.Keyed.{IsKeyed}
use merchant_operations_plat.Billing.Payments.Guards.{Allowed}
use merchant_operations_plat.Billing.Payments.Recorded.{own_fits}
use merchant_operations_plat.Database.Faults.{Fault}

-- The payment has not been made under another bill, and its key is new.
abbrev IsNew : FullPayment → Db → Type 0
IsNew p db = any (has_key p.tenant_id p.outlet_id p.idempotency_key) db.payments ≡ false

complete_sale-ok :
    (context : MutationContext) (tenant outlet : Uuid) (total : ℤ) (paid : Payment) (bill_id : Uuid)
    (bill : Bill) (db : Db) {f : Fault}
    → find (bill_by_id tenant bill_id) db.bills ≡ some bill
    → (complete_sale context tenant outlet total paid bill_id db).0 ≢ err f
unfolding complete_sale
complete_sale-ok context tenant outlet total paid bill_id bill db {f} found e = ground arith

book_payment-ok :
    (context : MutationContext) (p : FullPayment) (bill_id : Uuid) (bill : Bill) (db : Db)
    → IsNew p db
    → find (bill_by_id p.tenant_id bill_id) db.bills ≡ some bill
    → (c : CheckoutRecord) × ((book_payment context p bill_id db).0
        ≡ ok (FullPaymentOutcome.recorded c))
unfolding book_payment
book_payment-ok context p bill_id bill db free found =
    let row = payment_row context p db.next_id in
    let between = record db { next_id = suc db.next_id; payments = db.payments ++ row ∷ [] } in
    elim (Result-cases
      (complete_sale context p.tenant_id p.outlet_id p.total_minor row bill_id between).0) [
        | inr (f, g) ↦ absurd (
            complete_sale-ok context p.tenant_id p.outlet_id p.total_minor row bill_id bill between
              found g)
        | inl ((b, sale), g) ↦ (record { bill = b; payment = row; sale = sale }, ground arith)
      ]

count_none : (q : Bill → Bool) (xs : List Bill) → find q xs ≡ none → count_where q xs ≢ 1
count_none q [] h e = ground arith
count_none q (x ∷ xs) h e = ground (arith, count_none q xs)

some_bill :
    (q : Bill → Bool) (xs : List Bill) → count_where q xs ≡ 1 → (b : Bill) × (find q xs ≡ some b)
some_bill q xs one = elim (Option-cases (find q xs)) [
  | inr found ↦ found
  | inl missing ↦ absurd (count_none q xs missing one)
]

settle_new-ok :
    (context : MutationContext) (p : FullPayment) (db : Db)
    → IsKeyed db
    → IsNew p db
    → let made = record db {
      next_id = suc db.next_id;
      bills = db.bills ++ new_bill (header_of p) (bill_line_of p) db.next_id ∷ [];
    } in
      (c : CheckoutRecord) × ((settle_and_book context p db.next_id made).0
        ≡ ok (FullPaymentOutcome.recorded c))
unfolding settle_and_book
settle_new-ok context p db keyed free =
    let bill = new_bill (header_of p) (bill_line_of p) db.next_id in
    let made = record db { next_id = suc db.next_id; bills = db.bills ++ bill ∷ [] } in
    let key = bill_by_id p.tenant_id db.next_id in
    let fits = is_settleable p.tenant_id db.next_id p.total_minor in
    let zero_key = keyed.fresh p.tenant_id db.next_id (omega arith) in
    let less = count_where_le fits key db.bills (λ y h. ground arith) in
    let own : fits bill ≡ true = own_fits p.tenant_id db.next_id p.total_minor in
    let own_key : key bill ≡ true = ground arith in
    let one : count_where fits made.bills ≡ 1 =
      count_where-append fits db.bills bill ∙ rw own (ground arith) in
    let keys : count_where key (update_many fits (as_paid p) made.bills) ≡ 1 =
      count_where-update_many_same key fits (as_paid p) made.bills (λ x. refl)
      ∙ count_where-append key db.bills bill
      ∙ rw own_key (ground arith) in
    let (b, found) = some_bill key (update_many fits (as_paid p) made.bills) keys in
    let (c, booked) =
      book_payment-ok context p db.next_id b
        (record made { bills = update_many fits (as_paid p) made.bills }) free found in
    (c, ground arith)

-- Cash is tendered, and enough of it; nothing is tendered for any other method.
abbrev pub IsTendered : PaymentMethod → Option ℤ → ℤ → Type 0
IsTendered cash none total = ⊥
IsTendered cash (some tendered) total = total ≤ℤ tendered
IsTendered method tendered total = tendered ≡ none

-- What the CHECKs on the tables of bills and payments ask for: amounts that are not negative and add
-- up to a total above 0, rates from 0 to 50 percent, and a payment that is tendered as its method
-- wants.
pub record IsStorable (p : FullPayment) : Type 0 where
  pub subtotal : pos 0 ≤ℤ p.subtotal_minor
  pub tax : pos 0 ≤ℤ p.tax_minor
  pub service_charge : pos 0 ≤ℤ p.service_charge_minor
  pub total : p.total_minor ≡ p.subtotal_minor +ℤ p.tax_minor +ℤ p.service_charge_minor
  pub positive : pos 1 ≤ℤ p.total_minor
  pub tax_rate : p.charges.tax_rate_bp ≤ 5000
  pub service_charge_rate : p.charges.service_charge_rate_bp ≤ 5000
  pub tendered : IsTendered p.method p.tendered_minor p.total_minor

-- The first payment of an order under a new key, in an open shift, with the order there, not
-- canceled and approved, the bills keyed by their identifiers, and amounts that the CHECKs of the
-- tables accept, is recorded.
pub record_full_payment-ok :
    (context : MutationContext) (p : FullPayment) (db : Db)
    → IsStorable p
    → IsKeyed db
    → Allowed p db
    → find (bill_of_order p.tenant_id p.order_id) db.bills ≡ none
    → IsNew p db
    → (c : CheckoutRecord) × ((record_full_payment context p db).0
        ≡ ok (FullPaymentOutcome.recorded c))
unfolding record_full_payment full_payment_transaction pay_bill
record_full_payment-ok context p db storable keyed (shift, live, o, found, approved) first free =
    let made = record db {
      next_id = suc db.next_id;
      bills = db.bills ++ new_bill (header_of p) (bill_line_of p) db.next_id ∷ [];
    } in
    let (c, booked) = settle_new-ok context p db keyed free in
    let paid : pay_bill context p db ≡ settle_and_book context p db.next_id made = ground arith in
    let through : full_payment_transaction context p db ≡ pay_bill context p db = ground arith in
    let done : (full_payment_transaction context p db).0 ≡ ok (FullPaymentOutcome.recorded c) =
      ap (λ x. x.0) through ∙ ap (λ x. x.0) paid ∙ booked in
    (c, ground arith)
