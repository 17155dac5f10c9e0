-- ===== src/Kds/Runs/Writes.antt =====
-- apps/api/src/modules/kds/adapters/prisma-kitchen-ticket.repository.ts: what each command writes.
use merchant_operations_plat.Prelude.{
  ℕ, ◌≡◌, ◌⊎◌, inl, inr, refl, ap, subst, ◌∙◌, arith, Bool, true, false, Option, none, some, [],
  ◌∷◌, ◌++◌, Uuid, ok, find, any, ◌==◌, Bool-cases, Option-cases, Result-cases,
}
use merchant_operations_plat.Contracts.Kds.{KitchenTicketStatus, same_status, served, canceled}
use merchant_operations_plat.Database.{Db}
use merchant_operations_plat.Database.Faults.{Fault}
use merchant_operations_plat.Database.Tables.{update_many, count_where}
use merchant_operations_plat.Database.Action.{Action, catch_unique, transaction, throw, ◌>>=◌, gets}
use merchant_operations_plat.Database.Transactions.{catch_unique-cases, transaction-cases}
use merchant_operations_plat.Kds.Ticket.{KitchenTicket}
use merchant_operations_plat.Kds.TicketStatus.{is_finished}
use merchant_operations_plat.Kds.Tickets.{
  NewKitchenTicket, create, default_station_id, insert_station, insert_ticket, from_same_source,
  ticket_row, by_source, existing_or,
}
use merchant_operations_plat.Kds.Moves.{
  TicketMove, is_at, is_still, as_moved, move, TicketCancellation, TicketMoveResult, missing, stale,
  moved, move_found, has_status, as_canceled, is_from, cancel_open, cancel_by_source, cancel_found,
  recheck,
}

-- A move that found its ticket, or none, answers, and writes to the tickets nothing more.
move_found_lem :
    (m : TicketMove) (count : ℕ) (found : Option KitchenTicket) (db : Db)
    → (a : TicketMoveResult) × (db' : Db) × (move_found m count found db ≡ (ok a, db'))
      × (db'.kitchen.tickets ≡ db.kitchen.tickets)
move_found_lem m count none db = (missing, db, refl, refl)
move_found_lem m count (some t) db = elim (Bool-cases (count == 1)) [
  | inr e ↦ (stale t, db, ground arith, refl)
  | inl e ↦ elim (Option-cases m.event_type) [
    | inl f ↦ (moved t, (move_found m count (some t) db).1, ground arith, ground arith)
    | inr (type, f) ↦ (moved t, (move_found m count (some t) db).1, ground arith, ground arith)
  ]
]

pub move-tickets :
    (m : TicketMove) (db : Db)
    → (move m db).1.kitchen.tickets ≡ update_many (is_still m) (as_moved m) db.kitchen.tickets
unfolding move
move-tickets m db =
    let rows = update_many (is_still m) (as_moved m) db.kitchen.tickets in
    let (a, db', h, k) =
      move_found_lem m (count_where (is_still m) db.kitchen.tickets) (find (is_at m) rows)
        (record db { kitchen = record db.kitchen { tickets = rows } }) in
    ground arith

-- Looking again writes nothing.
recheck_lem :
    (c : TicketCancellation) (t : KitchenTicket) (db : Db)
    → (recheck c t db).1.kitchen.tickets ≡ db.kitchen.tickets
recheck_lem c t db = ground arith

-- A ticket that is called off is canceled, or the call throws or answers with nothing more
-- written.
cancel_open_lem :
    (c : TicketCancellation) (t : KitchenTicket) (db : Db)
    → let rows =
        update_many (has_status c.tenant_id t.id t.status) (as_canceled c.at) db.kitchen.tickets in
      ((cancel_open c t db).1.kitchen.tickets ≡ rows)
unfolding cancel_open
cancel_open_lem c t db =
    elim (Bool-cases (count_where (has_status c.tenant_id t.id t.status) db.kitchen.tickets == 1)) [
      | inl e ↦ rw e refl
      | inr e ↦ rw e (
          recheck_lem c t (record db {
            kitchen = record db.kitchen {
              tickets =
                  update_many (has_status c.tenant_id t.id t.status) (as_canceled c.at)
                    db.kitchen.tickets;
            };
          }))
    ]

unfinished_lem :
    (s : KitchenTicketStatus)
    → same_status s canceled ≡ false
    → same_status s served ≡ false
    → is_finished s ≡ false
unfinished_lem s e f = ground arith

cancel_found_lem :
    (c : TicketCancellation) (found : Option KitchenTicket) (db : Db)
    → ((cancel_found c found db).1.kitchen.tickets ≡ db.kitchen.tickets)
      ⊎ ((t : KitchenTicket) × (is_finished t.status ≡ false)
          × ((cancel_found c found db).1.kitchen.tickets
              ≡ update_many
                  (has_status c.tenant_id t.id t.status)
                  (as_canceled c.at)
                  db.kitchen.tickets))
cancel_found_lem c none db = inl refl
cancel_found_lem c (some t) db = elim (Bool-cases (same_status t.status canceled)) [
  | inl e ↦ inl (rw e refl)
  | inr e ↦ elim (Bool-cases (same_status t.status served)) [
    | inl f ↦ inl (rw e (rw f refl))
    | inr f ↦ inr (t, unfinished_lem t.status e f, rw e (rw f (cancel_open_lem c t db)))
  ]
]

-- Calling a ticket off writes nothing, or it cancels an open ticket.
pub cancel_by_source-tickets :
    (c : TicketCancellation) (db : Db)
    → ((cancel_by_source c db).1.kitchen.tickets ≡ db.kitchen.tickets)
      ⊎ ((t : KitchenTicket) × (is_finished t.status ≡ false)
          × ((cancel_by_source c db).1.kitchen.tickets
              ≡ update_many
                  (has_status c.tenant_id t.id t.status)
                  (as_canceled c.at)
                  db.kitchen.tickets))
unfolding cancel_by_source
cancel_by_source-tickets c db =
    elim (transaction-cases (gets (λ d. find (is_from c) d.kitchen.tickets) >>= cancel_found c)
      db) [
        | inr h ↦ inl (ap (λ d. d.kitchen.tickets) h)
        | inl h ↦ elim (cancel_found_lem c (find (is_from c) db.kitchen.tickets) db) [
          | inl g ↦ inl (ap (λ d. d.kitchen.tickets) h ∙ g)
          | inr (t, unfinished, g) ↦ inr (t, unfinished, ap (λ d. d.kitchen.tickets) h ∙ g)
        ]
      ]

pub default_station_id-tickets :
    (tenant outlet : Uuid) (db : Db)
    → (default_station_id tenant outlet db).1.kitchen.tickets ≡ db.kitchen.tickets
unfolding default_station_id insert_station
default_station_id-tickets tenant outlet db = ground arith

pub insert_ticket_lem :
    (n : NewKitchenTicket) (station : Uuid) (db : Db) {out : Bool × KitchenTicket} {db' : Db}
    → insert_ticket n station db ≡ (ok out, db')
    → (any (from_same_source n) db.kitchen.tickets ≡ false)
      × (out ≡ (true, ticket_row n station db.next_id))
      × (db'.kitchen.tickets ≡ db.kitchen.tickets ++ ticket_row n station db.next_id ∷ [])
unfolding insert_ticket
insert_ticket_lem n station db {out} {db'} h =
    elim (Bool-cases (any (from_same_source n) db.kitchen.tickets)) [
      | inl e ↦ absurd (ground arith)
      | inr e ↦ (e, ground arith, ground arith)
    ]

-- Where the unique index refuses the ticket, it is looked for again.
unfoldable pub look_again : NewKitchenTicket → Action (Bool × KitchenTicket)
look_again n = by_source n >>= λ raced. existing_or raced (throw Fault.unique_violation)

pub look_again_lem : (n : NewKitchenTicket) (db : Db) → (look_again n db).1 ≡ db
unfolding look_again
look_again_lem n db = ground arith

-- A create writes no ticket, or one of its own under a source and reference that had none.
pub create-tickets :
    (n : NewKitchenTicket) (db : Db)
    → ((create n db).1.kitchen.tickets ≡ db.kitchen.tickets)
      ⊎ ((station id : Uuid) × (any (from_same_source n) db.kitchen.tickets ≡ false)
          × ((create n db).1.kitchen.tickets ≡ db.kitchen.tickets ++ ticket_row n station id ∷ []))
unfolding create look_again
create-tickets n db = elim (Option-cases (find (from_same_source n) db.kitchen.tickets)) [
  | inr (t, e) ↦ inl (ground arith)
  | inl e ↦
      let tables = default_station_id-tickets n.tenant_id n.outlet_id db in
      let db1 = (default_station_id n.tenant_id n.outlet_id db).1 in
      elim (Result-cases (default_station_id n.tenant_id n.outlet_id db).0) [
        | inr (f, h) ↦ inl (ground arith)
        | inl (station, h) ↦
            let written : (create n db)
                ≡ catch_unique (transaction (insert_ticket n station)) (look_again n) db1 =
              ground arith in
            elim (catch_unique-cases (insert_ticket n station) (look_again n) db1) [
              | inl (out, db2, k, w) ↦
                  let (none_yet, _, rows) = insert_ticket_lem n station db1 k in
                  inr (
                    station,
                    db1.next_id,
                    subst (λ ts. any (from_same_source n) ts ≡ false) tables none_yet,
                    ap (λ r. r.1.kitchen.tickets) (written ∙ w)
                        ∙ rows
                        ∙ ap (λ ts. ts ++ ticket_row n station db1.next_id ∷ []) tables,
                  )
              | inr (inl w) ↦ inl (
                  ap (λ r. r.1.kitchen.tickets) (written ∙ w)
                  ∙ ap (λ d. d.kitchen.tickets) (look_again_lem n db1)
                  ∙ tables)
              | inr (inr (f, w)) ↦ inl (ap (λ r. r.1.kitchen.tickets) (written ∙ w) ∙ tables)
            ]
      ]
]
