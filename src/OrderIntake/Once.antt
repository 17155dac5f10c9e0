-- ===== src/OrderIntake/Once.antt =====
-- An order is submitted once for its key (`submit` of
-- apps/api/src/kernels/order-intake/application/order-intake.service.ts).
use merchant_operations_plat.Prelude.{
  ◌≡◌, inl, inr, refl, ap, subst, ◌∙◌, true, false, Option, none, some, List, [], ◌∷◌, ◌++◌, Uuid,
  Text, ok, arith, find, ==_refl, if◌then◌else◌, Bool-cases, Option-cases, Result-cases,
}
use merchant_operations_plat.Contracts.Orders.{OrderSource, is_self_order, same_source}
use merchant_operations_plat.Database.{Db, Order}
use merchant_operations_plat.Database.Tables.{find-append_none}
use merchant_operations_plat.Database.Faults.{Fault}
use merchant_operations_plat.Database.Action.{Action, gets, throw, ◌>>=◌, ◌>>◌}
use merchant_operations_plat.Database.Transactions.{catch_unique-cases}
use merchant_operations_plat.OrderIntake.Pricing.{MenuProduct, price_order_lines}
use merchant_operations_plat.OrderIntake.Orders.{
  SubmitContext, NewSubmittedOrder, has_key, same_visit, is_other_context, guard_visit,
  insert_order, replay_or, submit_transaction, create_submitted,
}
use merchant_operations_plat.OrderIntake.Service.{OrderInput, new_order, take_order, submit}

-- The order under a key, taken for this visit in this way.
abbrev pub IsKept : Uuid → Uuid → Option Uuid → OrderSource → Text → Order → Db → Type 0
IsKept tenant outlet visit source key o db =
    (find (has_key tenant outlet key) db.orders ≡ some o)
    × (is_other_context visit source o ≡ false)

abbrev Keeps : NewSubmittedOrder → Order → Db → Type 0
Keeps n o db = IsKept n.tenant_id n.outlet_id n.table_session_id n.source n.idempotency_key o db

-- A guard on a visit that leaves the orders alone.
abbrev pub LeavesOrders : (Uuid → Action (Unit {0})) → Type 0
LeavesOrders ensure_open = (visit : Uuid) (db : Db) → (ensure_open visit db).1.orders ≡ db.orders

same_visit_refl : (v : Option Uuid) → same_visit v v ≡ true
same_visit_refl none = refl
same_visit_refl (some v) = ==_refl v

same_source_refl : (s : OrderSource) → same_source s s ≡ true
same_source_refl s = ground arith

insert_order_lem :
    (context : SubmitContext) (n : NewSubmittedOrder) (db : Db) {o : Order} {db' : Db}
    → insert_order context n db ≡ (ok o, db')
    → (db'.orders ≡ db.orders ++ o ∷ [])
      × (has_key n.tenant_id n.outlet_id n.idempotency_key o ≡ true)
      × (is_other_context n.table_session_id n.source o ≡ false)
unfolding insert_order
insert_order_lem context n db {o} {db'} e =
    let k = ==_refl n.idempotency_key in
    let t = ==_refl n.tenant_id in
    let u = ==_refl n.outlet_id in
    let v = same_visit_refl n.table_session_id in
    let w = same_source_refl n.source in
    elim (Bool-cases (is_self_order n.source)) [ inl g ↦ ground arith | inr g ↦ ground arith ]

replayed :
    (n : NewSubmittedOrder) (existing : Order) (rest : Action Order) (db : Db) {o : Order}
    {db' : Db}
    → find (has_key n.tenant_id n.outlet_id n.idempotency_key) db.orders ≡ some existing
    → replay_or n (some existing) rest db ≡ (ok o, db')
    → Keeps n o db'
replayed n existing rest db {o} {db'} f e =
    elim (Bool-cases (is_other_context n.table_session_id n.source existing)) [
      | inl other ↦ absurd (ground arith)
      | inr same ↦
          let a : existing ≡ o = ground arith in
          let b : db ≡ db' = ground arith in
          (
            subst
                (λ (d : Db).
                  find (has_key n.tenant_id n.outlet_id n.idempotency_key) d.orders ≡ some o)
                b (f ∙ ap some a),
            subst (λ x. is_other_context n.table_session_id n.source x ≡ false) a same,
          )
    ]

inserted :
    (context : SubmitContext) (n : NewSubmittedOrder) (db0 db : Db) {o : Order} {db' : Db}
    → find (has_key n.tenant_id n.outlet_id n.idempotency_key) db0.orders ≡ none
    → db.orders ≡ db0.orders
    → insert_order context n db ≡ (ok o, db')
    → Keeps n o db'
inserted context n db0 db {o} {db'} f same e =
    let key = has_key n.tenant_id n.outlet_id n.idempotency_key in
    let (orders, own, context_ok) = insert_order_lem context n db e in
    let free : find key db.orders ≡ none = ap (find key) same ∙ f in
    let first : find key (o ∷ []) ≡ some o = ap (λ b. if b then some o else none) own in
    (ap (find key) orders ∙ (find-append_none key db.orders (o ∷ []) free ∙ first), context_ok)

guard_visit-orders :
    (ensure_open : Uuid → Action (Unit {0})) (visit : Option Uuid) (db : Db)
    → LeavesOrders ensure_open
    → (guard_visit ensure_open visit db).1.orders ≡ db.orders
guard_visit-orders ensure_open none db leaves = refl
guard_visit-orders ensure_open (some v) db leaves = leaves v db

submit_transaction-Keeps :
    (ensure_open : Uuid → Action (Unit {0})) (context : SubmitContext) (n : NewSubmittedOrder)
    (db : Db) {o : Order} {db' : Db}
    → LeavesOrders ensure_open
    → submit_transaction ensure_open context n db ≡ (ok o, db')
    → Keeps n o db'
unfolding submit_transaction
submit_transaction-Keeps ensure_open context n db {o} {db'} leaves e =
    let guard = guard_visit ensure_open n.table_session_id in
    elim (Option-cases (find (has_key n.tenant_id n.outlet_id n.idempotency_key) db.orders)) [
      | inr (existing, f) ↦
          replayed n existing (guard >> insert_order context n) db {o = o} {db' = db'} f
            (ground arith)
      | inl f ↦ elim (Result-cases ((guard db).0)) [
        | inr (fault, g) ↦ absurd (ground arith)
        | inl (u, g) ↦
            let last : insert_order context n (guard db).1 ≡ (ok o, db') = ground arith in
            inserted context n db (guard db).1 f
              (guard_visit-orders ensure_open n.table_session_id db leaves) last
      ]
    ]

-- The handler of a violated key answers an order only if it finds one.
create_submitted-Keeps :
    (ensure_open : Uuid → Action (Unit {0})) (context : SubmitContext) (n : NewSubmittedOrder)
    (db : Db) {o : Order} {db' : Db}
    → LeavesOrders ensure_open
    → create_submitted ensure_open context n db ≡ (ok o, db')
    → Keeps n o db'
unfolding create_submitted
create_submitted-Keeps ensure_open context n db {o} {db'} leaves e =
    let handler : Action Order = (do
      existing ← gets (λ db. find (has_key n.tenant_id n.outlet_id n.idempotency_key) db.orders)
      replay_or n existing (throw Fault.unique_violation)) in
    elim (catch_unique-cases (submit_transaction ensure_open context n) handler db) [
      | inl (o', db1, ran, h) ↦
          let a : o' ≡ o = ground arith in
          let b : db1 ≡ db' = ground arith in
          subst (λ d. Keeps n o d) b
            (subst (λ x. Keeps n x db1) a
              (submit_transaction-Keeps ensure_open context n db leaves ran))
      | inr (inl h) ↦
          elim (Option-cases (find (has_key n.tenant_id n.outlet_id n.idempotency_key) db.orders)) [
            | inl f ↦ absurd (ground arith)
            | inr (existing, f) ↦
                replayed n existing (throw Fault.unique_violation) db {o = o} {db' = db'} f
                  (ground arith)
          ]
      | inr (inr (fault, h)) ↦ absurd (ground arith)
    ]

module _ (ensure_open : Uuid → Action (Unit {0})) (menu : Uuid → Uuid → Db → List MenuProduct) where
  submit-IsKept :
      (tenant outlet : Uuid) (input : OrderInput) (visit : Option Uuid) (source : OrderSource)
      (key : Text) (context : SubmitContext) (db : Db) {o : Order} {db' : Db}
      → LeavesOrders ensure_open
      → submit ensure_open menu tenant outlet input visit source key context db ≡ (ok o, db')
      → IsKept tenant outlet visit source key o db'
  unfolding submit take_order
  submit-IsKept tenant outlet input visit source key context db {o} {db'} leaves e =
      elim (Option-cases (find (has_key tenant outlet key) db.orders)) [
        | inr (existing, f) ↦ elim (Bool-cases (is_other_context visit source existing)) [
          | inl other ↦ absurd (ground arith)
          | inr same ↦
              let a : existing ≡ o = ground arith in
              let b : db ≡ db' = ground arith in
              (
                subst (λ (d : Db). find (has_key tenant outlet key) d.orders ≡ some o) b
                    (f ∙ ap some a),
                subst (λ x. is_other_context visit source x ≡ false) a same,
              )
        ]
        | inl f ↦ elim (Result-cases (price_order_lines (menu tenant outlet db) input.items)) [
          | inr (failed, g) ↦ absurd (ground arith)
          | inl (priced, g) ↦
              create_submitted-Keeps ensure_open context
                (new_order tenant outlet input visit source key priced) db {o = o} {db' = db'}
                leaves (ground arith)
        ]
      ]

  -- An order that was submitted is answered again, and nothing is written, whenever its key comes
  -- again for the same visit in the same way, whatever the second request asks for: where the guard
  -- on a visit leaves the orders alone.
  pub submit_again :
      (tenant outlet : Uuid) (input again : OrderInput) (visit : Option Uuid) (source : OrderSource)
      (key : Text) (context later : SubmitContext) (db : Db) {o : Order} {db' : Db}
      → LeavesOrders ensure_open
      → submit ensure_open menu tenant outlet input visit source key context db ≡ (ok o, db')
      → submit ensure_open menu tenant outlet again visit source key later db' ≡ (ok o, db')
  unfolding submit
  submit_again tenant outlet input again visit source key context later db {o} {db'} leaves e =
      let (found, same) = submit-IsKept tenant outlet input visit source key context db leaves e in
      ground (arith, found, same)
