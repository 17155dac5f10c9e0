-- ===== src/Billing/Writes.antt =====
-- The rows that a payment writes
-- (apps/api/src/kernels/billing-payment-ledger/adapters/prisma-billing.repository.ts).
use merchant_operations_plat.Prelude.{
  Result, ℕ, Bool, ◌&&◌, Option, none, some, [], ◌∷◌, ◌++◌, Uuid, Text, Instant, find, any,
}
use merchant_operations_plat.Prelude.Int.{ℤ, pos, ◌==ℤ◌}
use merchant_operations_plat.Contracts.Charges.{OutletCharges}
use merchant_operations_plat.Contracts.Billing.{BillStatus, SaleStatus, is_bill_unpaid}
use merchant_operations_plat.Database.{Bill, Payment, Allocation, Sale, AuditAction, EventType}
use merchant_operations_plat.Database.Tables.{update_many, count_where}
use merchant_operations_plat.Database.Faults.{unique_violation, record_not_found}
use merchant_operations_plat.Database.Action.{
  Action, pure, gets, or_throw, ◌>>=◌, ◌>>◌, throw_if, modify, new_id, audit, emit,
}
use merchant_operations_plat.Billing.{MutationContext, SessionBillLine}
use merchant_operations_plat.Billing.Store.{has_key, bill_by_id, upsert_counter}

-- What a bill takes from the payment that makes it.
pub record BillHeader : Type 0 where
  pub charges : OutletCharges
  pub currency : Text
  pub outlet_id : Uuid
  pub tenant_id : Uuid
  pub table_session_id : Option Uuid

abbrev pub new_bill : BillHeader → SessionBillLine → Uuid → Bill
new_bill h line id = record {
  id = id;
  tenant_id = h.tenant_id;
  outlet_id = h.outlet_id;
  order_id = line.order_id;
  currency = h.currency;
  subtotal_minor = line.subtotal_minor;
  discount_minor = pos 0;
  tax_minor = line.tax_minor;
  service_charge_minor = line.service_charge_minor;
  rounding_minor = pos 0;
  charges_included = h.charges.included;
  tax_rate_bp = h.charges.tax_rate_bp;
  service_charge_rate_bp = h.charges.service_charge_rate_bp;
  total_minor = line.total_minor;
  paid_minor = pos 0;
  status = BillStatus.unpaid;
  table_session_id = h.table_session_id;
}

-- `existing?.id ?? (await transaction.bill.create(...)).id`
abbrev create_bill : BillHeader → SessionBillLine → Action Uuid
create_bill h line = do
  id ← new_id
  modify (λ db. record db { bills = db.bills ++ new_bill h line id ∷ [] })
  pure id

abbrev pub bill_for : BillHeader → SessionBillLine → Option Bill → Action Uuid
bill_for h line none = create_bill h line
bill_for h line (some b) = pure b.id

-- The bill that is guarded by its status and its total.
abbrev pub is_settleable : Uuid → Uuid → ℤ → Bill → Bool
is_settleable tenant id total b =
    bill_by_id tenant id b && (is_bill_unpaid b.status && b.total_minor ==ℤ total)

-- `bill.updateMany({ data: { paidMinor, status: "PAID", ... } })`, with its count.
abbrev pub settle_bill : (Bill → Bill) → Uuid → Uuid → ℤ → Action ℕ
settle_bill f tenant id total db = (
  Result.ok (count_where (is_settleable tenant id total) db.bills),
  record db { bills = update_many (is_settleable tenant id total) f db.bills },
)

-- `billingPayment.create`; the key is unique in an outlet.
abbrev pub create_payment : (Uuid → Payment) → Action Payment
create_payment row = do
  id ← new_id
  let p = row id
  taken ← gets (λ db. any (has_key p.tenant_id p.outlet_id p.idempotency_key) db.payments)
  throw_if taken unique_violation
  modify (λ db. record db { payments = db.payments ++ p ∷ [] })
  pure p

abbrev create_allocation : Allocation → Action (Unit {0})
create_allocation a = modify (λ db. record db { allocations = db.allocations ++ a ∷ [] })

abbrev next_sale_number : Uuid → Uuid → Action ℕ
next_sale_number tenant outlet db =
    let (n, counters) = upsert_counter tenant outlet db.sale_counters in
    (Result.ok n, record db { sale_counters = counters })

-- The sale of a settled bill, under the outlet's next number.
abbrev create_sale : Uuid → Uuid → Uuid → ℤ → Instant → Action Sale
create_sale tenant outlet bill total now = do
  number ← next_sale_number tenant outlet
  id ← new_id
  let sale : Sale = record {
    id = id;
    tenant_id = tenant;
    outlet_id = outlet;
    sale_number = number;
    bill_id = bill;
    status = SaleStatus.completed;
    total_minor = total;
    completed_at = some now;
  }
  modify (λ db. record db { sales = db.sales ++ sale ∷ [] })
  pure sale

-- The audit entry and the two events of a payment and its sale.
abbrev announce_payment : MutationContext → Payment → Sale → Action (Unit {0})
announce_payment context paid sale = do
  audit (record {
    action = AuditAction.payment_record;
    actor_id = some context.actor_id;
    entity_id = paid.id;
    outlet_id = sale.outlet_id;
    tenant_id = sale.tenant_id;
  })
  emit (record {
    type = EventType.payment_recorded;
    aggregate_id = paid.id;
    outlet_id = sale.outlet_id;
    tenant_id = sale.tenant_id;
  })
  emit (record {
    type = EventType.sale_completed;
    aggregate_id = sale.id;
    outlet_id = sale.outlet_id;
    tenant_id = sale.tenant_id;
  })

-- The writes that follow a settled bill: its share of the payment, its sale, and the news of both.
unfoldable pub complete_sale :
    MutationContext → Uuid → Uuid → ℤ → Payment → Uuid → Action (Bill × Sale)
complete_sale context tenant outlet total paid bill_id = do
  create_allocation
      (record { tenant_id = tenant; payment_id = paid.id; bill_id = bill_id; amount_minor = total })
  sale ← create_sale tenant outlet bill_id total context.now
  bill ← or_throw (← gets (λ db. find (bill_by_id tenant bill_id) db.bills)) record_not_found
  announce_payment context paid sale
  pure (bill, sale)
