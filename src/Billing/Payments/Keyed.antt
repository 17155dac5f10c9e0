-- ===== src/Billing/Payments/Keyed.antt =====
-- The identifiers of bills while payments are recorded (`recordFullPayment`).
use merchant_operations_plat.Prelude.{suc, ◌≤◌, ◌≡◌, refl, [], ◌∷◌, ◌++◌, Uuid, arith}
use merchant_operations_plat.Database.{Db}
use merchant_operations_plat.Database.Tables.{
  count_where, count_where-append, count_where-update_many_same,
}
use merchant_operations_plat.Billing.{MutationContext, CheckoutRecord, FullPayment}
use merchant_operations_plat.Billing.Store.{bill_by_id}
use merchant_operations_plat.Billing.Writes.{new_bill, is_settleable}
use merchant_operations_plat.Billing.Payments.{header_of, bill_line_of, as_paid}
use merchant_operations_plat.Billing.Payments.Settled.{Settled}

-- Identifiers of bills: one bill at most has one, and those to come are not taken.
pub record IsKeyed (db : Db) : Type 0 where
  pub unique : (tenant id : Uuid) → count_where (bill_by_id tenant id) db.bills ≤ 1
  pub fresh : (tenant id : Uuid) → db.next_id ≤ id → count_where (bill_by_id tenant id) db.bills ≡ 0

pub Settled-IsKeyed :
    (context : MutationContext) (p : FullPayment) (c : CheckoutRecord) (bill_id : Uuid)
    (db db' : Db)
    → IsKeyed db
    → Settled context p c bill_id db db'
    → IsKeyed db'
Settled-IsKeyed context p c bill_id db db' keyed (_, _, _, _, _, bills, later, _, _) =
    let same = λ (tenant id : Uuid).
      count_where-update_many_same (bill_by_id tenant id)
        (is_settleable p.tenant_id bill_id p.total_minor) (as_paid p) db.bills (λ y. refl) in
    record {
      unique = λ tenant id. rw bills (rw (same tenant id) (keyed.unique tenant id));
      fresh = λ tenant id h. rw bills (rw (same tenant id) (keyed.fresh tenant id (omega arith)));
    }

pub made-IsKeyed :
    (p : FullPayment) (db : Db)
    → IsKeyed db
    → IsKeyed (record db {
      next_id = suc db.next_id;
      bills = db.bills ++ new_bill (header_of p) (bill_line_of p) db.next_id ∷ [];
    })
made-IsKeyed p db keyed =
    let bill = new_bill (header_of p) (bill_line_of p) db.next_id in
    record {
      unique = λ tenant id. grind (
        arith,
        keyed.unique tenant id,
        keyed.fresh tenant id,
        count_where-append (bill_by_id tenant id) db.bills bill,
      );
      fresh = λ tenant id h.
          grind
            (arith, keyed.fresh tenant id, count_where-append (bill_by_id tenant id) db.bills bill);
    }
