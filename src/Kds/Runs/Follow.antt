-- ===== src/Kds/Runs/Follow.antt =====
-- apps/api/src/modules/kds: through any sequence of commands a ticket goes one way.
use merchant_operations_plat.Prelude.{
  ◌≡◌, ◌⊎◌, inl, inr, refl, ap, sym, subst, ◌∙◌, arith, true, false, Option, some, List, [], ◌∷◌,
  Uuid, Instant, Option-cases, Result-cases,
}
use merchant_operations_plat.Contracts.Kds.{KitchenTicketStatus}
use merchant_operations_plat.Database.{Db}
use merchant_operations_plat.Kds.Ticket.{KitchenTicket}
use merchant_operations_plat.Kds.TicketStatus.{next_status, is_finished, stamp}
use merchant_operations_plat.Kds.Tickets.{ticket_row}
use merchant_operations_plat.Kds.Moves.{
  TicketMove, is_still, as_moved, move, has_status, as_canceled, TicketMoveResult,
  TicketCancellation,
}
use merchant_operations_plat.Kds.UseCases.{advance_ticket, cancel_ticket, move_to, advanced}
use merchant_operations_plat.Kds.Runs.{Command, create_new, advance_seen, call_off, apply, run}
use merchant_operations_plat.Kds.Runs.Steps.{
  ◌⟶◌, ◌⟶*◌, here, after, step_off, Follows, Grown, Grown-refl, Grown-trans, Grown-append,
  Grown-update_many, next_status-⟶, same_status_eq,
}
use merchant_operations_plat.Kds.Runs.Writes.{
  move-tickets, cancel_by_source-tickets, create-tickets,
}

not_finished : (s t : KitchenTicketStatus) → next_status s ≡ some t → is_finished s ≡ false
not_finished s t h = ground arith

pub stamp_lem :
    (to : KitchenTicketStatus) (at : Instant) (t : KitchenTicket)
    → ((stamp to at t).id ≡ t.id)
      × ((stamp to at t).tenant_id ≡ t.tenant_id)
      × ((stamp to at t).outlet_id ≡ t.outlet_id)
      × ((stamp to at t).source_reference ≡ t.source_reference)
      × ((stamp to at t).source ≡ t.source)
      × ((stamp to at t).items ≡ t.items)
      × ((stamp to at t).status ≡ t.status)
stamp_lem to at t = ground arith

-- A move to the next status is a step of the ticket.
as_moved-Follows :
    (m : TicketMove) (t : KitchenTicket)
    → next_status m.from ≡ some m.to
    → is_still m t ≡ true
    → Follows t (as_moved m t)
as_moved-Follows m t next h =
    let seen : t.status ≡ m.from = same_status_eq t.status m.from (ground arith) in
    let set = record t { status = m.to; updated_at = m.at } in
    let (id, tenant, outlet, request, _, items, status) = stamp_lem m.to m.at set in
    let unfinished : is_finished t.status ≡ false =
      ap is_finished seen ∙ not_finished m.from m.to next in
    record {
      same_id = id;
      same_tenant = tenant;
      same_outlet = outlet;
      same_request = request;
      same_items = items;
      reached =
          after (subst (λ s. s ⟶ m.to) (sym seen) (next_status-⟶ m.from m.to next))
            (subst (λ s. m.to ⟶* s) (sym status) here);
      kept = λ h. cc;
    }

as_canceled-Follows :
    (at : Instant) (t : KitchenTicket) → is_finished t.status ≡ false → Follows t (as_canceled at t)
as_canceled-Follows at t unfinished = record {
  same_id = refl;
  same_tenant = refl;
  same_outlet = refl;
  same_request = refl;
  same_items = refl;
  reached = after (step_off unfinished) here;
  kept = λ h. cc;
}

advanced_lem :
    (to : KitchenTicketStatus) (r : TicketMoveResult) (db : Db) → (advanced to r db).1 ≡ db
advanced_lem to r db = ground arith

-- A refused advance writes nothing; another is the move that it asks for.
pub advance_ticket-tickets :
    (tenant outlet id : Uuid) (expected : KitchenTicketStatus) (actor : Option Uuid) (now : Instant)
    (db : Db)
    → ((advance_ticket tenant outlet id expected actor now db).1 ≡ db)
      ⊎ ((to : KitchenTicketStatus) × (next_status expected ≡ some to)
          × ((advance_ticket tenant outlet id expected actor now db).1
              ≡ (move (move_to tenant outlet id expected actor now to) db).1))
unfolding advance_ticket
advance_ticket-tickets tenant outlet id expected actor now db =
    elim (Option-cases (next_status expected)) [
      | inl e ↦ inl (ground arith)
      | inr (to, e) ↦
          let m = move_to tenant outlet id expected actor now to in
          inr (
            to,
            e,
            elim (Result-cases (move m db).0) [
              | inr (f, h) ↦ ground arith
              | inl (r, h) ↦ let same = advanced_lem to r (move m db).1 in ground arith
            ],
          )
    ]

apply-Grown : (c : Command) (db : Db) → Grown db.kitchen.tickets (apply c db).kitchen.tickets
unfolding apply cancel_ticket
apply-Grown (create_new n) db = elim (create-tickets n db) [
  | inl e ↦ subst (Grown db.kitchen.tickets) (sym e) (Grown-refl db.kitchen.tickets)
  | inr (station, id, _, e) ↦
      subst (Grown db.kitchen.tickets) (sym e)
        (Grown-append db.kitchen.tickets (ticket_row n station id))
]
apply-Grown (advance_seen tenant outlet id expected actor now) db =
    elim (advance_ticket-tickets tenant outlet id expected actor now db) [
      | inl e ↦
          subst (λ d. Grown db.kitchen.tickets d.kitchen.tickets) (sym e)
            (Grown-refl db.kitchen.tickets)
      | inr (to, next, e) ↦
          let m = move_to tenant outlet id expected actor now to in
          subst (Grown db.kitchen.tickets) (sym (ap (λ d. d.kitchen.tickets) e ∙ move-tickets m db))
            (Grown-update_many (is_still m) (as_moved m) db.kitchen.tickets
              (λ t h. as_moved-Follows m t next h))
    ]
apply-Grown (call_off tenant sources reference actor now) db =
    let c : TicketCancellation = record {
      at = now;
      actor_id = actor;
      source_reference = reference;
      sources = sources;
      tenant_id = tenant;
    } in
    elim (cancel_by_source-tickets c db) [
      | inl e ↦ subst (Grown db.kitchen.tickets) (sym e) (Grown-refl db.kitchen.tickets)
      | inr (t, unfinished, e) ↦ subst (Grown db.kitchen.tickets) (sym e) (
          Grown-update_many (has_status tenant t.id t.status) (as_canceled now) db.kitchen.tickets
            (λ k h.
              as_canceled-Follows now k
                (ap is_finished (same_status_eq k.status t.status (ground arith)) ∙ unfinished)))
    ]

-- Through any sequence of creates, advances and cancellations, whichever of them are refused,
-- every ticket is still there: the same request, in a status that it reached by the kitchen's
-- steps, and just as it was where it had been served or canceled.
pub run-Grown : (cs : List Command) (db : Db) → Grown db.kitchen.tickets (run cs db).kitchen.tickets
unfolding run
run-Grown [] db = Grown-refl db.kitchen.tickets
run-Grown (c ∷ cs) db =
    Grown-trans db.kitchen.tickets (apply c db).kitchen.tickets
      (run cs (apply c db)).kitchen.tickets (apply-Grown c db) (run-Grown cs (apply c db))
