-- ===== src/Kds/Once.antt =====
-- apps/api/src/modules/kds: one source and reference make one ticket.
use merchant_operations_plat.Database.Faults.{Fault}
use merchant_operations_plat.Prelude.{
  ◌≡◌, ◌≤◌, inl, inr, refl, ap, sym, subst, ◌∙◌, arith, Bool, true, false, some, List, [], ◌∷◌,
  ◌++◌, Uuid, Text, ==_refl, any, find, Result, ok, err, Option-cases, Result-cases, Bool-cases,
}
use merchant_operations_plat.Contracts.Kds.{KitchenTicketSource, same_source}
use merchant_operations_plat.Database.{Db}
use merchant_operations_plat.Database.Tables.{
  count_where, count_where-append, count_where-any, count_where-update_many_same, find-append_none,
  find-none,
}
use merchant_operations_plat.Database.Action.{catch_unique, transaction}
use merchant_operations_plat.Database.Transactions.{catch_unique-cases}
use merchant_operations_plat.Kds.Ticket.{KitchenTicket}
use merchant_operations_plat.Kds.Tickets.{
  NewKitchenTicket, create, has_source, from_same_source, ticket_row, default_station_id,
  insert_ticket,
}
use merchant_operations_plat.Kds.Moves.{
  TicketCancellation, is_still, as_moved, has_status, as_canceled, TicketMove,
}
use merchant_operations_plat.Kds.UseCases.{cancel_ticket, move_to}
use merchant_operations_plat.Kds.Runs.{Command, create_new, advance_seen, call_off, apply, run}
use merchant_operations_plat.Kds.Runs.Writes.{
  move-tickets, cancel_by_source-tickets, create-tickets, insert_ticket_lem, look_again,
}
use merchant_operations_plat.Kds.Runs.Follow.{advance_ticket-tickets}

-- At most one ticket for a tenant, a source and a reference.
abbrev pub IsUnique : Db → Type 0
IsUnique db =
    (tenant : Uuid) (source : KitchenTicketSource) (reference : Text)
    → count_where (has_source tenant source reference) db.kitchen.tickets ≤ 1

same_source_refl : (s : KitchenTicketSource) → same_source s s ≡ true
same_source_refl s = ground arith

same_source_eq : (s t : KitchenTicketSource) → same_source s t ≡ true → s ≡ t
same_source_eq s t h = ground arith

-- A new ticket has the key it was made for, and no other.
ticket_row-has_source :
    (n : NewKitchenTicket) (station id : Uuid) → from_same_source n (ticket_row n station id) ≡ true
ticket_row-has_source n station id =
    rw (==_refl n.source_reference) (rw (same_source_refl n.source) (==_refl n.tenant_id))

own_key :
    (n : NewKitchenTicket) (station id tenant : Uuid) (source : KitchenTicketSource)
    (reference : Text) (db : Db)
    → count_where (from_same_source n) db.kitchen.tickets ≡ 0
    → has_source tenant source reference (ticket_row n station id) ≡ true
    → count_where (has_source tenant source reference) db.kitchen.tickets ≡ 0
own_key n station id tenant source reference db h own =
    let t : n.tenant_id ≡ tenant = ground arith in
    let r : n.source_reference ≡ reference = ground arith in
    let s : n.source ≡ source = same_source_eq n.source source (ground arith) in
    subst (λ k. count_where (has_source k source reference) db.kitchen.tickets ≡ 0) t
      (subst (λ k. count_where (has_source n.tenant_id k reference) db.kitchen.tickets ≡ 0) s
        (subst (λ k. count_where (has_source n.tenant_id n.source k) db.kitchen.tickets ≡ 0) r h))

append-IsUnique :
    (n : NewKitchenTicket) (station id : Uuid) (db db' : Db)
    → IsUnique db
    → any (from_same_source n) db.kitchen.tickets ≡ false
    → db'.kitchen.tickets ≡ db.kitchen.tickets ++ ticket_row n station id ∷ []
    → IsUnique db'
append-IsUnique n station id db db' unique fresh wrote tenant source reference =
    let row = ticket_row n station id in
    let none_yet = count_where-any (from_same_source n) db.kitchen.tickets fresh in
    rw wrote (
      rw (count_where-append (has_source tenant source reference) db.kitchen.tickets row)
        (elim (Bool-cases (has_source tenant source reference row)) [
          | inr other ↦ rw other (omega (arith, unique tenant source reference))
          | inl own ↦
              rw own (omega (arith, own_key n station id tenant source reference db none_yet own))
        ]))

as_moved-key :
    (m : TicketMove) (tenant : Uuid) (source : KitchenTicketSource) (reference : Text)
    (t : KitchenTicket)
    → has_source tenant source reference (as_moved m t) ≡ has_source tenant source reference t
as_moved-key m tenant source reference t = ground arith

apply-IsUnique : (c : Command) (db : Db) → IsUnique db → IsUnique (apply c db)
unfolding apply cancel_ticket
apply-IsUnique (create_new n) db unique = elim (create-tickets n db) [
  | inl e ↦ λ t s r. subst (λ ts. count_where (has_source t s r) ts ≤ 1) (sym e) (unique t s r)
  | inr (station, id, fresh, e) ↦ append-IsUnique n station id db (create n db).1 unique fresh e
]
apply-IsUnique (advance_seen tenant outlet id expected actor now) db unique =
    elim (advance_ticket-tickets tenant outlet id expected actor now db) [
      | inl e ↦ subst IsUnique (sym e) unique
      | inr (to, next, e) ↦
          let m = move_to tenant outlet id expected actor now to in
          λ t s r. rw (ap (λ d. d.kitchen.tickets) e ∙ move-tickets m db) (
            rw
              (count_where-update_many_same (has_source t s r) (is_still m) (as_moved m)
                db.kitchen.tickets (as_moved-key m t s r))
              (unique t s r))
    ]
apply-IsUnique (call_off tenant sources reference actor now) db unique =
    let c : TicketCancellation = record {
      at = now;
      actor_id = actor;
      source_reference = reference;
      sources = sources;
      tenant_id = tenant;
    } in
    elim (cancel_by_source-tickets c db) [
      | inl e ↦ λ t s r. subst (λ ts. count_where (has_source t s r) ts ≤ 1) (sym e) (unique t s r)
      | inr (k, unfinished, e) ↦ λ t s r.
          subst (λ ts. count_where (has_source t s r) ts ≤ 1) (sym e)
            (rw
              (count_where-update_many_same (has_source t s r) (has_status tenant k.id k.status)
                (as_canceled now) db.kitchen.tickets (λ x. refl))
              (unique t s r))
    ]

-- No sequence of creates, advances and cancellations gives a request a second ticket.
pub run-IsUnique : (cs : List Command) (db : Db) → IsUnique db → IsUnique (run cs db)
unfolding run
run-IsUnique [] db unique = unique
run-IsUnique (c ∷ cs) db unique = run-IsUnique cs (apply c db) (apply-IsUnique c db unique)

abbrev answer_of : Bool × KitchenTicket → Result Fault (Bool × KitchenTicket)
answer_of a = ok a

abbrev refusal_of : Fault → Result Fault (Bool × KitchenTicket)
refusal_of f = err f

answered : (a b : Bool × KitchenTicket) → answer_of a ≡ answer_of b → a ≡ b
answered a b h = cc

thrown : (f : Fault) (b : Bool × KitchenTicket) → refusal_of f ≡ answer_of b → ⊥
thrown f b h = cc

row_found :
    (n : NewKitchenTicket) (station id : Uuid) (ts : List KitchenTicket)
    → any (from_same_source n) ts ≡ false
    → find (from_same_source n) (ts ++ ticket_row n station id ∷ [])
      ≡ some (ticket_row n station id)
row_found n station id ts fresh =
    find-append_none (from_same_source n) ts (ticket_row n station id ∷ [])
      (find-none (from_same_source n) ts (count_where-any (from_same_source n) ts fresh))
    ∙ rw (ticket_row-has_source n station id) refl

look_again-found :
    (n : NewKitchenTicket) (db : Db) {made : Bool} {t : KitchenTicket}
    → (look_again n db).0 ≡ ok (made, t)
    → find (from_same_source n) (look_again n db).1.kitchen.tickets ≡ some t
unfolding look_again
look_again-found n db {made} {t} answer = ground arith

-- After a create that answers, the request finds the ticket that was answered.
create-found :
    (n : NewKitchenTicket) (db : Db) {made : Bool} {t : KitchenTicket}
    → (create n db).0 ≡ ok (made, t)
    → find (from_same_source n) (create n db).1.kitchen.tickets ≡ some t
unfolding create look_again
create-found n db {made} {t} answer =
    elim (Option-cases (find (from_same_source n) db.kitchen.tickets)) [
      | inr (k, e) ↦ ground arith
      | inl e ↦
          let db1 = (default_station_id n.tenant_id n.outlet_id db).1 in
          elim (Result-cases (default_station_id n.tenant_id n.outlet_id db).0) [
            | inr (f, h) ↦ absurd (ground arith)
            | inl (station, h) ↦
                let written : (create n db)
                    ≡ catch_unique (transaction (insert_ticket n station)) (look_again n) db1 =
                  ground arith in
                elim (catch_unique-cases (insert_ticket n station) (look_again n) db1) [
                  | inl (out, db2, k, w) ↦
                      let (none_yet, is_row, rows) = insert_ticket_lem n station db1 k in
                      let same : out ≡ (made, t) =
                        answered out (made, t) (sym (ap (λ r. r.0) (written ∙ w)) ∙ answer) in
                      let found : find (from_same_source n) db2.kitchen.tickets ≡ some out.1 =
                        ap (find (from_same_source n)) rows
                        ∙ row_found n station db1.next_id db1.kitchen.tickets none_yet
                        ∙ ap (λ x. some x.1) (sym is_row) in
                      subst (λ d. find (from_same_source n) d.kitchen.tickets ≡ some t)
                        (sym (ap (λ r. r.1) (written ∙ w))) (found ∙ ap (λ x. some x.1) same)
                  | inr (inl w) ↦
                      subst (λ d. find (from_same_source n) d.kitchen.tickets ≡ some t)
                        (sym (ap (λ r. r.1) (written ∙ w)))
                        (look_again-found n db1 (sym (ap (λ r. r.0) (written ∙ w)) ∙ answer))
                  | inr (inr (f, w)) ↦
                      absurd (thrown f (made, t) (sym (ap (λ r. r.0) (written ∙ w)) ∙ answer))
                ]
          ]
    ]

create_existing :
    (n : NewKitchenTicket) (db : Db) {t : KitchenTicket}
    → find (from_same_source n) db.kitchen.tickets ≡ some t
    → create n db ≡ (ok (false, t), db)
unfolding create
create_existing n db {t} h = rw h refl

-- A request that made a ticket, or found one, finds that ticket when it comes again, and then
-- nothing is written.
pub create_again :
    (n : NewKitchenTicket) (db : Db) (made : Bool) (t : KitchenTicket)
    → (create n db).0 ≡ ok (made, t)
    → create n (create n db).1 ≡ (ok (false, t), (create n db).1)
create_again n db made t answer = create_existing n (create n db).1 (create-found n db answer)
