-- ===== src/PosSales/Cancellation.antt =====
-- What may be canceled at the cashier (`PosOrdersService.cancel`).
use merchant_operations_plat.Prelude.{
  ◌≡◌, ◌⊎◌, inl, inr, refl, Bool, true, false, List, ◌&&◌, some, Uuid, Text, ok, err, find, arith,
  ◌==◌, Bool-cases, Option-cases,
}
use merchant_operations_plat.Contracts.Orders.{is_pending, canceled, rejected}
use merchant_operations_plat.Database.{Db, Order}
use merchant_operations_plat.Database.Tables.{
  Pairwise, update_many, count_where, update_many-Pairwise_each,
}
use merchant_operations_plat.Database.Faults.{Fault}
use merchant_operations_plat.Billing.{MutationContext}
use merchant_operations_plat.Billing.Store.{is_order_paid}
use merchant_operations_plat.OrderIntake.Orders.{order_by_id}
use merchant_operations_plat.OrderIntake.Decisions.{is_live, as_canceled}
use merchant_operations_plat.OrderIntake.Decisions
use merchant_operations_plat.OrderIntake.Service.{cancel_order}
use merchant_operations_plat.PosSales.PosOrders.{cancel}

-- A paid order that is not canceled is not cancelled: the command answers ORDER_ALREADY_PAID and
-- nothing is written.
pub cancel_paid :
    (tenant outlet order : Uuid) (reason : Text) (context : MutationContext) (db : Db)
    → count_where (is_live tenant outlet order) db.orders ≡ 1
    → is_order_paid tenant order db ≡ true
    → cancel tenant outlet order reason context db ≡ (err Fault.order_already_paid, db)
unfolding cancel cancel_order Decisions.cancel
cancel_paid tenant outlet order reason context db live paid = ground arith

-- An order that is not the named one stays as it is; the named one is canceled, with who did it,
-- when and why, and rejected if it was waiting for its approval.
abbrev pub Canceled : Uuid → Uuid → Uuid → Text → MutationContext → Bool → Order → Order → Type 0
Canceled tenant outlet order reason context waited o o' =
    (order_by_id tenant outlet order o ≡ false) × (o' ≡ o)
    ⊎ (o.id ≡ order)
      × (o'.id ≡ order)
      × (o'.status ≡ canceled)
      × (o'.canceled_at ≡ some context.now)
      × (o'.canceled_by ≡ some context.actor_id)
      × (o'.cancel_reason ≡ some reason)
      × (o'.items ≡ o.items)
      × (waited ≡ true → o'.moderation_status ≡ rejected)
      × (waited ≡ false → o'.moderation_status ≡ o.moderation_status)

as_canceled-Canceled :
    (tenant outlet order : Uuid) (reason : Text) (context : MutationContext) (waited : Bool)
    (o : Order)
    → order_by_id tenant outlet order o ≡ true
    → Canceled tenant outlet order reason context waited o (as_canceled context reason waited o)
as_canceled-Canceled tenant outlet order reason context true o h =
    inr (ground arith, ground arith, refl, refl, refl, refl, refl, (λ e. refl), (λ e. cc))
as_canceled-Canceled tenant outlet order reason context false o h =
    inr (ground arith, ground arith, refl, refl, refl, refl, refl, (λ e. cc), (λ e. refl))

update_many-Canceled :
    (tenant outlet order : Uuid) (reason : Text) (context : MutationContext) (waited : Bool)
    (os : List Order)
    → Pairwise
        (Canceled tenant outlet order reason context waited)
        os
        (update_many (order_by_id tenant outlet order) (as_canceled context reason waited) os)
update_many-Canceled tenant outlet order reason context waited os =
    update_many-Pairwise_each (order_by_id tenant outlet order) (as_canceled context reason waited)
      (Canceled tenant outlet order reason context waited) os
      (λ o e. as_canceled-Canceled tenant outlet order reason context waited o e)
      (λ o e. inl (e, refl))

-- What a cancel does to the orders.
abbrev pub CanceledNow : Uuid → Uuid → Uuid → Text → MutationContext → Db → Db → Type 0
CanceledNow tenant outlet order reason context db db' =
    (o : Order) × (find (order_by_id tenant outlet order) db.orders ≡ some o)
    × Pairwise (Canceled tenant outlet order reason context (is_pending o.moderation_status))
        db.orders db'.orders

-- A cancel that succeeds has changed nothing, or the order was there, live and unpaid, and it is
-- marked canceled; the money tables stay as they were.
pub cancel-ok :
    (tenant outlet order : Uuid) (reason : Text) (context : MutationContext) (db : Db) {o : Order}
    {db' : Db}
    → cancel tenant outlet order reason context db ≡ (ok o, db')
    → (db' ≡ db)
      ⊎ (count_where (is_live tenant outlet order) db.orders ≡ 1)
        × (is_order_paid tenant order db ≡ false)
        × CanceledNow tenant outlet order reason context db db'
        × (db'.bills ≡ db.bills)
        × (db'.sales ≡ db.sales)
unfolding cancel cancel_order Decisions.cancel
cancel-ok tenant outlet order reason context db {o} {db'} e =
    let key = order_by_id tenant outlet order in
    elim (Bool-cases (count_where (is_live tenant outlet order) db.orders == 1)) [
      | inr gone ↦ elim (Option-cases (find key db.orders)) [
        | inl n ↦ absurd (ground arith)
        | inr (x, f) ↦ inl (ground arith)
      ]
      | inl live ↦ elim (Bool-cases (is_order_paid tenant order db)) [
        | inl paid ↦ absurd (ground arith)
        | inr unpaid ↦ elim (Option-cases (find key db.orders)) [
          | inl n ↦ absurd (ground arith)
          | inr (x, f) ↦
              let put = as_canceled context reason (is_pending x.moderation_status) in
              elim (Option-cases (
                find (λ (y : Order). y.id == order && y.tenant_id == tenant)
                  (update_many key put db.orders))) [
                    | inl n ↦ absurd (ground arith)
                    | inr (y, g) ↦
                        let wrote : db'.orders ≡ update_many key put db.orders = ground arith in
                        inr (
                          ground arith,
                          unpaid,
                          (
                            x,
                            f,
                            rw wrote (
                                update_many-Canceled tenant outlet order reason context
                                  (is_pending x.moderation_status) db.orders),
                          ),
                          ground arith,
                          ground arith,
                        )
                  ]
        ]
      ]
    ]
