-- ===== src/Kds/Tests.antt =====
-- apps/api/src/modules/kds on a small kitchen.
use native.Mathlib.Omega.{arith}
use merchant_operations_plat.Prelude.{
  ◌≡◌, refl, true, false, none, some, Option, List, [], ◌∷◌, Uuid, Text, ok,
}
use merchant_operations_plat.Contracts.Kds.{KitchenTicketSource, KitchenTicketStatus}
use merchant_operations_plat.Database.{Db}
use merchant_operations_plat.Database.Action.{Action, pure}
use merchant_operations_plat.Database.Samples.{unpaid_shop}
use merchant_operations_plat.Kds.Ticket.{KitchenTicket}
use merchant_operations_plat.Kds.Tickets.{
  NewKitchenTicket, create, ticket_row, default_station_id, insert_station, insert_ticket,
}
use merchant_operations_plat.Kds.UseCases.{OrderEvent}
use merchant_operations_plat.Kds.Runs.{Command, create_new, advance_seen, call_off, run}
use merchant_operations_plat.Kds.Runs.Steps.{Grown}
use merchant_operations_plat.Kds.Runs.Follow.{run-Grown}
use merchant_operations_plat.Kds.Once.{IsUnique, run-IsUnique, create_again}

abbrev pub sample_ticket : NewKitchenTicket
sample_ticket = record {
  actor_id = none;
  items = [];
  order_label = [];
  outlet_id = 2;
  received_at = 30;
  source = KitchenTicketSource.pos;
  source_reference = 3;
  table_label = none;
  tenant_id = 1;
}

abbrev pub made_kitchen : Db
made_kitchen = record unpaid_shop {
  kitchen = record { stations = []; tickets = ticket_row sample_ticket 8 9 ∷ []; history = [] };
}

-- The ticket is accepted, asked for again, and called off.
abbrev pub sample_run : List Command
sample_run =
    advance_seen 1 2 9 KitchenTicketStatus.new none 31
    ∷ create_new sample_ticket
    ∷ call_off 1 (KitchenTicketSource.pos ∷ []) 3 none 32
    ∷ []

run-Grown_example : Grown made_kitchen.kitchen.tickets (run sample_run made_kitchen).kitchen.tickets
run-Grown_example = run-Grown sample_run made_kitchen

made_kitchen-IsUnique : IsUnique made_kitchen
made_kitchen-IsUnique tenant source reference = ground arith

run-IsUnique_example : IsUnique (run sample_run made_kitchen)
run-IsUnique_example = run-IsUnique sample_run made_kitchen made_kitchen-IsUnique

create_again_example :
    create sample_ticket (create sample_ticket unpaid_shop).1
    ≡ (ok (false, ticket_row sample_ticket 10 11), (create sample_ticket unpaid_shop).1)
unfolding create default_station_id insert_station insert_ticket
create_again_example =
    create_again sample_ticket unpaid_shop true (ticket_row sample_ticket 10 11) refl

abbrev pub submitted_event : OrderEvent
submitted_event = record {
  workspace_id = 1;
  location_id = some 2;
  order_id = some 3;
  actor_id = none;
  occurred_at = 30;
}

abbrev pub no_label : Uuid → Uuid → Uuid → Action (Option Text)
no_label tenant outlet visit = pure none

abbrev pub no_usage : Uuid → KitchenTicket → Action (Unit {0})
no_usage tenant t = pure tt
