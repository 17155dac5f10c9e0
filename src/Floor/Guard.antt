-- ===== src/Floor/Guard.antt =====
-- apps/api/src/modules/floor/application/table-visit-guard.ts as the port of the order kernel: table
-- orders are taken for visits that go on.
use merchant_operations_plat.Prelude.{
  ◌≡◌, inl, inr, refl, false, none, some, List, Uuid, Text, Result, ok, err, arith, find,
  Option-cases, Result-cases,
}
use merchant_operations_plat.Contracts.Floor.{is_closed}
use merchant_operations_plat.Contracts.Orders.{OrderSource, dine_in}
use merchant_operations_plat.Database.{Db, Order}
use merchant_operations_plat.Database.Faults.{Fault}
use merchant_operations_plat.Database.Action as Database
use merchant_operations_plat.OrderIntake.Pricing.{MenuProduct, price_order_lines}
use merchant_operations_plat.OrderIntake.Orders.{
  SubmitContext, NewSubmittedOrder, has_key, submit_transaction, create_submitted,
}
use merchant_operations_plat.OrderIntake.Service.{
  OrderInput, new_order, take_order, submit, submit_table_order,
}
use merchant_operations_plat.Floor.{FloorDb, FloorFault}
use merchant_operations_plat.Floor.Visits.{TableSessionRecord, find_session}
use merchant_operations_plat.Floor.TableSessions.{ensure_open}

abbrev as_refusal : Result FloorFault (Unit {0}) → Result Fault (Unit {0})
as_refusal (ok u) = ok u
as_refusal (err e) = err Fault.table_session_not_open

-- The guard, on the visits as they are when the order comes in: it reads them and writes nothing.
unfoldable pub guard_of : FloorDb → Uuid → Uuid → Uuid → Database.Action (Unit {0})
unfolding ensure_open
guard_of floor tenant outlet visit db = (as_refusal (ensure_open tenant outlet visit floor).0, db)

-- The visit is there and not closed.
abbrev pub GoesOn : FloorDb → Uuid → Uuid → Uuid → Type 0
GoesOn floor tenant outlet visit =
    (s : TableSessionRecord) × (find_session tenant outlet visit floor ≡ some s)
    × (is_closed s.status ≡ false)

guard_of-GoesOn :
    (floor : FloorDb) (tenant outlet visit : Uuid) (db : Db)
    → (guard_of floor tenant outlet visit db).0 ≡ ok tt
    → GoesOn floor tenant outlet visit
unfolding guard_of
guard_of-GoesOn floor tenant outlet visit db h =
    elim (Option-cases (find_session tenant outlet visit floor)) [
      | inl e ↦ absurd (ground arith)
      | inr (s, e) ↦ (s, e, ground arith)
    ]

module _ (floor : FloorDb) (n : NewSubmittedOrder) (visit : Uuid)
    (own : n.table_session_id ≡ some visit) (context : SubmitContext) (db : Db)
    (new : find (has_key n.tenant_id n.outlet_id n.idempotency_key) db.orders ≡ none) where
  abbrev guard : Uuid → Database.Action (Unit {0})
  guard = guard_of floor n.tenant_id n.outlet_id

  submit_transaction-GoesOn :
      (o : Order)
      → (submit_transaction guard context n db).0 ≡ ok o
      → GoesOn floor n.tenant_id n.outlet_id visit
  unfolding submit_transaction
  submit_transaction-GoesOn o h = elim (Result-cases ((guard visit db).0)) [
    | inl (u, g) ↦ guard_of-GoesOn floor n.tenant_id n.outlet_id visit db g
    | inr (e, g) ↦ absurd (ground arith)
  ]

  create_submitted-GoesOn :
      (o : Order)
      → (create_submitted guard context n db).0 ≡ ok o
      → GoesOn floor n.tenant_id n.outlet_id visit
  unfolding create_submitted
  create_submitted-GoesOn o h = elim (Result-cases ((submit_transaction guard context n db).0)) [
    | inl (a, g) ↦ submit_transaction-GoesOn a g
    | inr (e, g) ↦ absurd (ground arith)
  ]

-- A table order under a new key is taken only for a visit of the outlet that is there and not closed.
pub submit_table_order-GoesOn :
    (floor : FloorDb) (menu : Uuid → Uuid → Db → List MenuProduct) (tenant outlet visit : Uuid)
    (input : OrderInput) (key : Text) (context : SubmitContext) (source : OrderSource) (db : Db)
    (o : Order)
    → find (has_key tenant outlet key) db.orders ≡ none
    → (submit_table_order
        (guard_of floor tenant outlet)
        menu
        tenant
        outlet
        visit
        input
        key
        context
        source
        db).0
      ≡ ok o
    → GoesOn floor tenant outlet visit
unfolding submit_table_order submit take_order
submit_table_order-GoesOn floor menu tenant outlet visit input key context source db o new h =
    elim (Result-cases (price_order_lines (menu tenant outlet db) input.items)) [
      | inr (failed, g) ↦ absurd (ground arith)
      | inl (priced, g) ↦
          create_submitted-GoesOn floor
            (new_order tenant outlet (record input { order_type = dine_in }) (some visit) source key
              priced)
            visit refl context db new o (ground arith)
    ]
