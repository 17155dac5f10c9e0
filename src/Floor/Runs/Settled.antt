-- ===== src/Floor/Runs/Settled.antt =====
-- A visit ends once every order of it is paid or canceled (`close` of table-sessions.ts).
use merchant_operations_plat.Prelude.{
  ◌≡◌, ◌⊎◌, inl, inr, refl, Bool, true, false, not, ◌&&◌, List, [], ◌∷◌, Uuid, ok, arith, All, any,
  filter, Bool-cases, ◌==◌,
}
use merchant_operations_plat.Contracts.Orders.{is_canceled, is_order_approved}
use merchant_operations_plat.Database.{Db, Order}
use merchant_operations_plat.Database.Tables.{count_where, count_where-update_many}
use merchant_operations_plat.Billing.Store.{in_visit, is_order_paid}
use merchant_operations_plat.Floor.{FloorDb}
use merchant_operations_plat.Floor.Visits.{
  CommandOrigin, is_attached, is_of_session, is_live, detached,
}
use merchant_operations_plat.Floor.Closing.{as_closed, policy}
use merchant_operations_plat.Floor.TableSessions.{ensure_settled, close}
use merchant_operations_plat.Floor.Runs.Leaving.{Closed, close-cases}

-- An order of another visit, or one that is canceled, or approved and paid.
abbrev pub IsDone : Db → Uuid → Uuid → Uuid → Order → Type 0
IsDone db tenant outlet visit o =
    (o.outlet_id == outlet && (in_visit visit o.table_session_id && o.tenant_id == tenant)) ≡ true
    → is_canceled o.status ≡ false
    → (is_order_approved o.moderation_status ≡ true) × (is_order_paid tenant o.id db ≡ true)

-- The visit is over: it is not live, and it holds no table unless its tables wait to be cleaned.
abbrev pub IsOver : Uuid → Uuid → Uuid → FloorDb → FloorDb → Type 0
IsOver tenant outlet visit db db' =
    (count_where (is_live tenant outlet visit) db'.sessions ≡ 0)
    × (((policy tenant outlet db).cleaning_after_close ≡ true)
        ⊎ (count_where (λ t. is_attached t && is_of_session tenant visit t) db'.session_tables ≡ 0))

none_left :
    (db : Db) (tenant outlet visit : Uuid) (orders : List Order)
    → let mine =
        filter
          (λ o. not (is_canceled o.status))
          (filter
            (λ o.
              o.outlet_id == outlet && (in_visit visit o.table_session_id && o.tenant_id == tenant))
            orders) in
      any (λ (o : Order). not (is_order_approved o.moderation_status)) mine ≡ false
      → any (λ (o : Order). not (is_order_paid tenant o.id db)) mine ≡ false
      → All (IsDone db tenant outlet visit) orders
none_left db tenant outlet visit [] h k = tt
none_left db tenant outlet visit (o ∷ os) h k =
    elim (Bool-cases
      (o.outlet_id == outlet && (in_visit visit o.table_session_id && o.tenant_id == tenant))) [
        | inr e ↦ (
          (λ mine live. absurd (cc (e, mine))),
          none_left db tenant outlet visit os (ground arith) (ground arith),
        )
        | inl e ↦ elim (Bool-cases (is_canceled o.status)) [
          | inl c ↦ (
            (λ mine live. absurd (cc (c, live))),
            none_left db tenant outlet visit os (ground arith) (ground arith),
          )
          | inr c ↦ (
            (λ mine live. (ground arith, ground arith)),
            none_left db tenant outlet visit os (ground arith) (ground arith),
          )
        ]
      ]

ensure_settled_lem :
    (db : Db) (tenant outlet visit : Uuid) (floor : FloorDb)
    → (ensure_settled db tenant outlet visit floor).0 ≡ ok tt
    → All (IsDone db tenant outlet visit) db.orders
unfolding ensure_settled
ensure_settled_lem db tenant outlet visit floor h =
    none_left db tenant outlet visit db.orders (ground arith) (ground arith)

Closed-IsOver :
    (tenant outlet visit : Uuid) (cleaning : Bool) (origin : CommandOrigin) (db db' : FloorDb)
    → Closed tenant outlet visit cleaning origin db db'
    → (count_where (is_live tenant outlet visit) db'.sessions ≡ 0)
      × ((cleaning ≡ true)
          ⊎ (count_where (λ t. is_attached t && is_of_session tenant visit t) db'.session_tables
              ≡ 0))
Closed-IsOver tenant outlet visit true origin db db' (sessions, next, rows) = (
  rw sessions (
      count_where-update_many (is_live tenant outlet visit) (as_closed origin true) db.sessions
        (λ s h. ground arith)),
  inl refl,
)
Closed-IsOver tenant outlet visit false origin db db' (sessions, next, rows) = (
  rw sessions (
      count_where-update_many (is_live tenant outlet visit) (as_closed origin false) db.sessions
        (λ s h. ground arith)),
  inr (
      rw rows (
        count_where-update_many (λ t. is_attached t && is_of_session tenant visit t)
          (detached origin.now) db.session_tables (λ t h. refl))),
)

-- Whatever a close answers, it writes nothing, or every order of the visit is canceled, or approved
-- and paid; then the visit is no longer live, and it holds no table unless the outlet's policy makes
-- them wait to be cleaned.
pub close-IsOver :
    (orders : Db) (tenant outlet visit : Uuid) (origin : CommandOrigin) (db : FloorDb)
    → ((close orders tenant outlet visit origin db).1 ≡ db)
      ⊎ (All (IsDone orders tenant outlet visit) orders.orders
          × IsOver tenant outlet visit db (close orders tenant outlet visit origin db).1)
close-IsOver orders tenant outlet visit origin db =
    elim (close-cases orders tenant outlet visit origin db) [
      | inr same ↦ inl same
      | inl (settled, closed) ↦ inr (
        ensure_settled_lem orders tenant outlet visit db settled,
        Closed-IsOver tenant outlet visit (policy tenant outlet db).cleaning_after_close origin db
            (close orders tenant outlet visit origin db).1 closed,
      )
    ]
