-- ===== src/Kds/Reactions.antt =====
-- apps/api/src/modules/kds/adapters/order-events.handler.ts: what a ticket is made for.
use merchant_operations_plat.Prelude.{
  ◌≡◌, inl, inr, refl, ap, sym, subst, arith, Bool, true, false, Option, none, some, Uuid, Text,
  find, ok, Option-cases, Bool-cases, if◌then◌else◌,
}
use merchant_operations_plat.Contracts.Orders.{is_canceled, is_order_approved}
use merchant_operations_plat.Database.{Db, Order}
use merchant_operations_plat.Database.Faults.{Fault}
use merchant_operations_plat.Database.Action.{Action, or_throw, ◌>>=◌, pure}
use merchant_operations_plat.Database.Transactions.{action-then}
use merchant_operations_plat.OrderIntake.Orders.{order_by_id}
use merchant_operations_plat.OrderIntake.Service.{get_order}
use merchant_operations_plat.Kds.Ticket.{KitchenTicket}
use merchant_operations_plat.Kds.UseCases.{
  OrderEvent, KitchenOrder, Reaction, skipped_order_canceled, skipped_order_not_approved, created,
  existing, kitchen_order, react, on_submitted, kitchen_order_of, label_of_visit, to_kitchen_order,
  create_ticket, ticket_for,
}

-- What an answer of the kitchen says of the order.
abbrev pub Suits : Reaction → Bool → Bool → Type 0
Suits skipped_order_canceled off approved = off ≡ true
Suits skipped_order_not_approved off approved = (off ≡ false) × (approved ≡ false)
Suits (created id) off approved = (off ≡ false) × (approved ≡ true)
Suits (existing id) off approved = (off ≡ false) × (approved ≡ true)

-- An event names its order and its outlet, or it is blocked.
named_lem :
    (order outlet : Option Uuid) (next : Uuid → Uuid → Action Reaction) (db : Db)
    (reaction : Reaction)
    → ((or_throw order Fault.blocked_event >>= λ i.
          or_throw outlet Fault.blocked_event >>= λ l. next i l)
        db).0
      ≡ ok reaction
    → (i l : Uuid) × (order ≡ some i) × (outlet ≡ some l) × ((next i l db).0 ≡ ok reaction)
named_lem none outlet next db reaction h = cc
named_lem (some i) none next db reaction h = cc
named_lem (some i) (some l) next db reaction h = (i, l, refl, refl, h)

module _ (table_label : Uuid → Uuid → Uuid → Action (Option Text))
    (record_usage : Uuid → KitchenTicket → Action (Unit {0})) where
  kitchen_order_lem :
      (tenant outlet id : Uuid) (db : Db) {o : KitchenOrder} {db' : Db}
      → kitchen_order table_label record_usage tenant outlet id db ≡ (ok (some o), db')
      → (row : Order) × (find (order_by_id tenant outlet id) db.orders ≡ some row)
        × (o.canceled ≡ is_canceled row.status)
        × (o.approved ≡ is_order_approved row.moderation_status)
  unfolding kitchen_order get_order
  kitchen_order_lem tenant outlet id db {o} {db'} h =
      elim (Option-cases (find (order_by_id tenant outlet id) db.orders)) [
        | inl e ↦ absurd (ground arith)
        | inr (row, e) ↦
            let read : (kitchen_order_of table_label record_usage tenant outlet (some row) db).0
                ≡ ok (some o) =
              ground arith in
            let (label, db1, h1, k1) =
              action-then
                (label_of_visit table_label record_usage tenant outlet row.table_session_id)
                (λ l. pure (some (to_kitchen_order row l))) db (some o) read in
            let made : to_kitchen_order row label ≡ o = cc in
            (row, e, sym (ap (λ k. k.canceled) made), sym (ap (λ k. k.approved) made))
      ]

  abbrev answer : Bool × KitchenTicket → Reaction
  answer result = if result.0 then created result.1.id else existing result.1.id

  answer_lem :
      (result : Bool × KitchenTicket) (off approved : Bool)
      → off ≡ false
      → approved ≡ true
      → Suits (answer result) off approved
  answer_lem (true, t) off approved e f = (e, f)
  answer_lem (false, t) off approved e f = (e, f)

  react_lem :
      (event : OrderEvent) (outlet id : Uuid) (o : KitchenOrder) (db : Db) (reaction : Reaction)
      → (react table_label record_usage event outlet id o db).0 ≡ ok reaction
      → Suits reaction o.canceled o.approved
  react_lem event outlet id o db reaction h = elim (Bool-cases o.canceled) [
    | inl e ↦
        let same : skipped_order_canceled ≡ reaction = ground arith in
        subst (λ r. Suits r o.canceled o.approved) same e
    | inr e ↦ elim (Bool-cases o.approved) [
      | inr f ↦
          let same : skipped_order_not_approved ≡ reaction = ground arith in
          subst (λ r. Suits r o.canceled o.approved) same (e, f)
      | inl f ↦
          let made : ((create_ticket table_label record_usage
                    (ticket_for table_label record_usage event outlet id o)
                  >>= λ result. pure (answer result))
                db).0
              ≡ ok reaction =
            ground arith in
          let (result, db1, h1, k1) =
            action-then
              (create_ticket table_label record_usage
                (ticket_for table_label record_usage event outlet id o))
              (λ result. pure (answer result)) db reaction made in
          let same : answer result ≡ reaction = cc in
          subst (λ r. Suits r o.canceled o.approved) same
            (answer_lem result o.canceled o.approved e f)
    ]
  ]

  decide : OrderEvent → Uuid → Uuid → Option KitchenOrder → Action Reaction
  decide event outlet id found =
      or_throw found Fault.blocked_event >>= react table_label record_usage event outlet id

  reading : OrderEvent → Uuid → Uuid → Action Reaction
  unfolding decide
  reading event outlet id =
      kitchen_order table_label record_usage event.workspace_id outlet id >>= decide event outlet id

  -- From the order that was read to the answer.
  decided_lem :
      (event : OrderEvent) (outlet id : Uuid) (found : Option KitchenOrder) (db db1 : Db)
      (reaction : Reaction)
      → kitchen_order table_label record_usage event.workspace_id outlet id db ≡ (ok found, db1)
      → (decide event outlet id found db1).0 ≡ ok reaction
      → (row : Order) × (find (order_by_id event.workspace_id outlet id) db.orders ≡ some row)
        × Suits reaction (is_canceled row.status) (is_order_approved row.moderation_status)
  unfolding decide
  decided_lem event outlet id none db db1 reaction h k = absurd (ground arith)
  decided_lem event outlet id (some o) db db1 reaction h k =
      let (row, at, c, a) =
        kitchen_order_lem event.workspace_id outlet id db {o = o} {db' = db1} h in
      (
        row,
        at,
        subst (λ b. Suits reaction b (is_order_approved row.moderation_status)) c
            (subst (λ b. Suits reaction o.canceled b) a
              (react_lem event outlet id o db1 reaction k)),
      )

  -- What the kitchen answers to a submitted order: there is such an order, and a ticket is made
  -- or found just where it was not canceled and is approved.
  pub on_submitted-Suits :
      (event : OrderEvent) (db : Db) (reaction : Reaction)
      → (on_submitted table_label record_usage event db).0 ≡ ok reaction
      → (outlet id : Uuid) × (o : Order) × (event.location_id ≡ some outlet)
        × (event.order_id ≡ some id)
        × (find (order_by_id event.workspace_id outlet id) db.orders ≡ some o)
        × Suits reaction (is_canceled o.status) (is_order_approved o.moderation_status)
  unfolding on_submitted decide reading
  on_submitted-Suits event db reaction h =
      let (id, outlet, e, f, read) =
        named_lem event.order_id event.location_id (λ i l. reading event l i) db reaction h in
      let (found, db1, h1, k1) =
        action-then (kitchen_order table_label record_usage event.workspace_id outlet id)
          (decide event outlet id) db reaction read in
      let (row, at, suits) = decided_lem event outlet id found db db1 reaction h1 k1 in
      (outlet, id, row, f, e, at, suits)
