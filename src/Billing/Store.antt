-- ===== src/Billing/Store.antt =====
-- The queries and single writes of
-- apps/api/src/kernels/billing-payment-ledger/adapters/prisma-billing.repository.ts.
use merchant_operations_plat.Prelude.{
  ℕ, ◌+◌, Bool, true, false, not, ◌&&◌, ◌||◌, Option, none, some, List, [], ◌∷◌, Uuid, Text, find,
  filter, any, contains, length, ◌==◌, if◌then◌else◌,
}
use merchant_operations_plat.Prelude.Int.{ℤ, pos, ◌+ℤ◌}
use merchant_operations_plat.Contracts.Orders.{is_canceled, is_order_approved}
use merchant_operations_plat.Contracts.Billing.{
  PaymentMethod, is_bill_unpaid, is_bill_paid, is_payment_paid, same_method,
}
use merchant_operations_plat.Database.{
  Db, Order, RegisterSession, SessionStatus, Bill, Payment, Allocation, Sale, Refund, Counter,
}
use merchant_operations_plat.Database.Faults.{self_order_pending, order_total_changed}
use merchant_operations_plat.Database.Action.{Action, gets, ◌>>=◌, ◌>>◌, throw_if}
use merchant_operations_plat.Billing.{
  CheckoutRecord, SessionCheckout, SessionCheckoutRecord, ReplayedRefund, PaidOrderState,
}

infixl 6 ◌>?◌
-- `a?.f`, for a lookup that follows another.
abbrev pub ◌>?◌ : {A B : Type 0} → Option A → (A → Option B) → Option B
none >? f = none
some a >? f = f a

abbrev pub is_open : SessionStatus → Bool
is_open SessionStatus.opened = true
is_open SessionStatus.closed = false

-- `{ id, outletId, status: "OPEN", tenantId }`
abbrev pub is_open_shift : Uuid → Uuid → Uuid → RegisterSession → Bool
is_open_shift tenant outlet id s =
    s.id == id && (s.outlet_id == outlet && (is_open s.status && s.tenant_id == tenant))

abbrev pub has_key : Uuid → Uuid → Text → Payment → Bool
has_key tenant outlet key p =
    p.idempotency_key == key && (p.outlet_id == outlet && p.tenant_id == tenant)

abbrev pub bill_by_id : Uuid → Uuid → Bill → Bool
bill_by_id tenant id b = b.id == id && b.tenant_id == tenant

abbrev pub bill_of_order : Uuid → Uuid → Bill → Bool
bill_of_order tenant order b = b.order_id == order && b.tenant_id == tenant

abbrev pub sale_by_id : Uuid → Uuid → Sale → Bool
sale_by_id tenant id s = s.id == id && s.tenant_id == tenant

abbrev pub sale_of_bill : Uuid → Uuid → Sale → Bool
sale_of_bill tenant bill s = s.bill_id == bill && s.tenant_id == tenant

abbrev pub refund_of_sale : Uuid → Uuid → Refund → Bool
refund_of_sale tenant sale r = r.sale_id == sale && r.tenant_id == tenant

abbrev allocation_of : Payment → Allocation → Bool
allocation_of p a = a.payment_id == p.id && a.tenant_id == p.tenant_id

unfoldable pub find_checkout_by_idempotency_key : Uuid → Uuid → Text → Db → Option CheckoutRecord
find_checkout_by_idempotency_key tenant outlet key db =
    find (has_key tenant outlet key) db.payments >? λ row.
    find (allocation_of row) db.allocations >? λ allocation.
    find (bill_by_id tenant allocation.bill_id) db.bills >? λ bill.
    find (sale_of_bill tenant bill.id) db.sales >? λ sale.
    some (record { bill = bill; payment = row; sale = sale })

-- `row.allocations.flatMap(({ bill: { sale, ...bill } }) => (sale ? [{ bill, sale }] : []))`
unfoldable session_checkouts : Uuid → Db → List Allocation → List SessionCheckout
session_checkouts tenant db [] = []
session_checkouts tenant db (a ∷ as') =
    let rest = session_checkouts tenant db as' in
    let found = find (bill_by_id tenant a.bill_id) db.bills >? λ bill.
    find (sale_of_bill tenant bill.id) db.sales >? λ sale.
    some (record { bill = bill; sale = sale }) in
    elim found [ none ↦ rest | some c ↦ c ∷ rest ]

abbrev session_checkout_of : Payment → List SessionCheckout → Option SessionCheckoutRecord
session_checkout_of row [] = none
session_checkout_of row (c ∷ cs) = some (record { checkouts = c ∷ cs; payment = row })

unfoldable pub find_session_checkout_by_idempotency_key :
    Uuid → Uuid → Text → Db → Option SessionCheckoutRecord
unfolding session_checkouts
find_session_checkout_by_idempotency_key tenant outlet key db =
    find (has_key tenant outlet key) db.payments >? λ row.
    session_checkout_of row
      (session_checkouts tenant db (filter (allocation_of row) db.allocations))

-- An order of the visit that is not canceled and has no bill, or an unpaid one.
abbrev is_unpaid_order : Db → Order → Bool
is_unpaid_order db o = elim (find (bill_of_order o.tenant_id o.id) db.bills) [
  | none ↦ true
  | some b ↦ is_bill_unpaid b.status
]

abbrev pub in_visit : Uuid → Option Uuid → Bool
in_visit visit none = false
in_visit visit (some v) = v == visit

abbrev visit_orders : Uuid → Uuid → Uuid → Db → List Order
visit_orders tenant outlet visit db =
    filter
      (λ o.
        o.tenant_id == tenant
        && (o.outlet_id == outlet
            && (in_visit visit o.table_session_id
                && (not (is_canceled o.status) && is_unpaid_order db o))))
      db.orders

-- `ensureVisitOrders`, under the visit lock.
unfoldable pub ensure_visit_orders : Uuid → Uuid → Uuid → List Uuid → Action (Unit {0})
ensure_visit_orders tenant outlet visit expected = do
  orders ← gets (visit_orders tenant outlet visit)
  throw_if (any (λ o. not (is_order_approved o.moderation_status)) orders) self_order_pending
  throw_if
      (not (length orders == length expected) || any (λ o. not (contains o.id expected)) orders)
      order_total_changed

unfoldable pub refunds_of_sale : Uuid → Uuid → Db → List Refund
refunds_of_sale tenant sale db = filter (refund_of_sale tenant sale) db.refunds

abbrev pub sum_refunds : List Refund → ℤ
sum_refunds [] = pos 0
sum_refunds (r ∷ rs) = r.amount_minor +ℤ sum_refunds rs

unfoldable pub find_refund_by_idempotency_key : Uuid → Uuid → Text → Db → Option ReplayedRefund
unfolding refunds_of_sale
find_refund_by_idempotency_key tenant outlet key db =
    find
      (λ (r : Refund). r.idempotency_key == key && (r.outlet_id == outlet && r.tenant_id == tenant))
      db.refunds
    >? λ row. find (sale_by_id tenant row.sale_id) db.sales >? λ sale.
        find (bill_by_id tenant sale.bill_id) db.bills >? λ bill. some (record {
          order_id = bill.order_id;
          result = record { refunds = refunds_of_sale tenant row.sale_id db; sale = sale };
        })

-- `paidOrders` for one order: its paid bill that has a sale.
unfoldable pub paid_order : Uuid → Uuid → Db → Option PaidOrderState
paid_order tenant order db =
    find (λ b. bill_of_order tenant order b && is_bill_paid b.status) db.bills >? λ bill.
    find (sale_of_bill tenant bill.id) db.sales >? λ sale. some (record {
      sale_number = sale.sale_number;
      sale_status = sale.status;
      total_minor = bill.total_minor;
    })

-- `isOrderPaid` of the service.
abbrev pub is_order_paid : Uuid → Uuid → Db → Bool
is_order_paid tenant order db = elim (paid_order tenant order db) [ none ↦ false | some _ ↦ true ]

-- `sumPaymentsByMethod` and `sumRefundsByMethod`, at one method; a missing group is 0.
unfoldable pub sum_payments : Uuid → Uuid → PaymentMethod → List Payment → ℤ
sum_payments tenant shift method [] = pos 0
sum_payments tenant shift method (p ∷ ps) =
    let rest = sum_payments tenant shift method ps in
    if in_visit shift p.register_session_id
      && (is_payment_paid p.status && (p.tenant_id == tenant && same_method p.method method))
    then p.amount_minor +ℤ rest
    else rest

unfoldable pub sum_shift_refunds : Uuid → Uuid → PaymentMethod → List Refund → ℤ
sum_shift_refunds tenant shift method [] = pos 0
sum_shift_refunds tenant shift method (r ∷ rs) =
    let rest = sum_shift_refunds tenant shift method rs in
    if r.register_session_id == shift && (r.tenant_id == tenant && same_method r.method method)
    then r.amount_minor +ℤ rest
    else rest

-- `saleNumberCounter.upsert`: the outlet's next number.
abbrev is_counter : Uuid → Uuid → Counter → Bool
is_counter tenant outlet c = c.tenant_id == tenant && c.outlet_id == outlet

unfoldable pub upsert_counter : Uuid → Uuid → List Counter → ℕ × List Counter
upsert_counter tenant outlet [] =
    (1, record { tenant_id = tenant; outlet_id = outlet; last_number = 1 } ∷ [])
upsert_counter tenant outlet (c ∷ cs) =
    let (n, rest) = upsert_counter tenant outlet cs in
    if is_counter tenant outlet c
    then (c.last_number + 1, record c { last_number = c.last_number + 1 } ∷ cs)
    else (n, c ∷ rest)
