-- ===== src/Billing/Refunds/Within.antt =====
-- A sale is never refunded past its total, and its status says how much of it was
-- (`recordRefund`).
use merchant_operations_plat.Prelude.{
  ◌≡◌, inl, inr, refl, subst, sym, ap, ◌∙◌, Bool, true, false, some, List, [], ◌∷◌, ◌++◌, Uuid,
  find, filter, arith, Bool-cases, if◌then◌else◌,
}
use merchant_operations_plat.Prelude.Int.{
  ℤ, pos, ◌+ℤ◌, ◌-ℤ◌, ◌≤ℤ◌, ◌<ℤ◌, ◌==ℤ◌, ==ℤ_iff, int_laws, +ℤ_assoc, +ℤ_zero,
}
use merchant_operations_plat.Contracts.Billing.{SaleStatus}
use merchant_operations_plat.Database.{Db, Sale, Refund}
use merchant_operations_plat.Database.Tables.{find_holds, find-update_many}
use merchant_operations_plat.Billing.{MutationContext, NewRefund}
use merchant_operations_plat.Billing.Store.{
  sale_by_id, refund_of_sale, refunds_of_sale, sum_refunds,
}
use merchant_operations_plat.Billing.Refunds.{refund_row, with_status, status_after, record_refund}
use merchant_operations_plat.Billing.Refunds.Booked.{refunded, Writes, Booked, record_refund-Booked}

sum_refunds-append :
    (p : Refund → Bool) (rs : List Refund) (r : Refund)
    → sum_refunds (filter p (rs ++ r ∷ []))
      ≡ sum_refunds (filter p rs) +ℤ (if p r then r.amount_minor else pos 0)
sum_refunds-append p [] r = elim (Bool-cases (p r)) [
  | inl e ↦ rw e (omega int_laws)
  | inr e ↦ rw e (omega int_laws)
]
sum_refunds-append p (x ∷ rs) r = elim (Bool-cases (p x)) [
  | inl e ↦ rw e (ap (λ n. x.amount_minor +ℤ n) (sum_refunds-append p rs r) ∙ sym (+ℤ_assoc _ _ _))
  | inr e ↦ rw e (sum_refunds-append p rs r)
]

-- What is known of a sale of which `n` was refunded.
abbrev pub Fits : Sale → ℤ → Type 0
Fits s n =
    (n ≤ℤ s.total_minor)
    × (s.status ≡ SaleStatus.completed → n ≡ pos 0)
    × (s.status ≡ SaleStatus.refunded → n ≡ s.total_minor)
    × (s.status ≡ SaleStatus.partially_refunded → n <ℤ s.total_minor)

Fits-after :
    (s : Sale) (n amount : ℤ)
    → amount ≤ℤ s.total_minor -ℤ n
    → Fits (with_status (status_after amount (s.total_minor -ℤ n)) s) (n +ℤ amount)
Fits-after s n amount h = elim (Bool-cases (amount ==ℤ s.total_minor -ℤ n)) [
  | inl e ↦ rw e (grind (int_laws, ==ℤ_iff))
  | inr e ↦ rw e (grind (int_laws, ==ℤ_iff))
]

some_injective : {x y : Sale} → some x ≡ some y → x ≡ y
some_injective h = ground arith

-- Every sale of the ledger is refunded within its total, as its status says.
abbrev pub IsRefundedWithin : Db → Type 0
IsRefundedWithin db =
    (tenant id : Uuid) (s : Sale)
    → find (sale_by_id tenant id) db.sales ≡ some s
    → Fits s (refunded tenant id db)

-- The refund is the sale's own.
Fits-hit :
    (context : MutationContext) (r : NewRefund) (db db' : Db) (old s : Sale) (tenant id : Uuid)
    → tenant ≡ r.tenant_id
    → id ≡ r.sale_id
    → r.amount_minor ≤ℤ old.total_minor -ℤ refunded r.tenant_id r.sale_id db
    → Writes context r (old.total_minor -ℤ refunded r.tenant_id r.sale_id db) db db'
    → s
      ≡ with_status
          (status_after r.amount_minor (old.total_minor -ℤ refunded r.tenant_id r.sale_id db))
          old
    → Fits s (refunded tenant id db')
unfolding refunds_of_sale
Fits-hit context r db db' old s tenant id same_tenant same_id within (added, _) e =
    let row = refund_row context r db.next_id in
    let n = refunded r.tenant_id r.sale_id db in
    let mine : refund_of_sale tenant id row ≡ true = ground arith in
    let sum : refunded tenant id db' ≡ n +ℤ r.amount_minor = rw added (
      sum_refunds-append (refund_of_sale tenant id) db.refunds row
      ∙ ap (λ b. refunded tenant id db +ℤ (if b then r.amount_minor else pos 0)) mine
      ∙ ap (λ t. refunded t id db +ℤ r.amount_minor) same_tenant
      ∙ ap (λ i. refunded r.tenant_id i db +ℤ r.amount_minor) same_id) in
    rw sum (rw e (Fits-after old n r.amount_minor within))

-- The refund is another sale's.
refunded_miss :
    (context : MutationContext) (r : NewRefund) (db db' : Db) (tenant id : Uuid)
    → refund_of_sale tenant id (refund_row context r db.next_id) ≡ false
    → db'.refunds ≡ db.refunds ++ refund_row context r db.next_id ∷ []
    → refunded tenant id db' ≡ refunded tenant id db
unfolding refunds_of_sale
refunded_miss context r db db' tenant id miss added =
    let row = refund_row context r db.next_id in
    rw added (
      sum_refunds-append (refund_of_sale tenant id) db.refunds row
      ∙ ap (λ b. refunded tenant id db +ℤ (if b then r.amount_minor else pos 0)) miss
      ∙ +ℤ_zero _)

Booked-IsRefundedWithin :
    (context : MutationContext) (r : NewRefund) (db db' : Db)
    → IsRefundedWithin db
    → Booked context r db db'
    → IsRefundedWithin db'
Booked-IsRefundedWithin context r db db' inv (old, found, within, wrote) tenant id s at =
    let q = sale_by_id tenant id in
    let p = sale_by_id r.tenant_id r.sale_id in
    let refundable = old.total_minor -ℤ refunded r.tenant_id r.sale_id db in
    let put = with_status (status_after r.amount_minor refundable) in
    let (x, before, e) =
      find-update_many q p put db.sales {y = s} (λ x. refl) (ap (find q) (sym wrote.1) ∙ at) in
    let row = refund_row context r db.next_id in
    let mine : q x ≡ true = find_holds q db.sales before in
    elim (Bool-cases (refund_of_sale tenant id row)) [
      | inl hit ↦
          let same_tenant : tenant ≡ r.tenant_id = ground arith in
          let same_id : id ≡ r.sale_id = ground arith in
          let here : find q db.sales ≡ find p db.sales =
            ap (λ t. find (sale_by_id t id) db.sales) same_tenant
            ∙ ap (λ i. find (sale_by_id r.tenant_id i) db.sales) same_id in
          let same : x ≡ old = some_injective (sym before ∙ here ∙ found) in
          let hit_old : p old ≡ true = find_holds p db.sales found in
          let now : s ≡ put old =
            e
            ∙ ap (λ y. if p y then put y else y) same
            ∙ ap (λ b. if b then put old else old) hit_old in
          Fits-hit context r db db' old s tenant id same_tenant same_id within wrote now
      | inr miss ↦
          let other : p x ≡ false = ground arith in
          let now : s ≡ x = e ∙ ap (λ b. if b then put x else x) other in
          rw now
            (rw (refunded_miss context r db db' tenant id miss wrote.0) (inv tenant id x before))
    ]

-- Whatever a refund answers, no sale is refunded past its total, and a sale's status keeps saying
-- how much was: COMPLETED nothing, PARTIALLY_REFUNDED less than the total, REFUNDED the total.
pub record_refund-IsRefundedWithin :
    (context : MutationContext) (r : NewRefund) (db : Db)
    → IsRefundedWithin db
    → IsRefundedWithin (record_refund context r db).1
record_refund-IsRefundedWithin context r db inv = elim (record_refund-Booked context r db) [
  | inl booked ↦ Booked-IsRefundedWithin context r db _ inv booked
  | inr same ↦ subst IsRefundedWithin (sym same) inv
]
