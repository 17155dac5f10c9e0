-- ===== src/Kds/Tickets.antt =====
-- apps/api/src/modules/kds/adapters/prisma-kitchen-ticket.repository.ts: a ticket is
-- made on the outlet's default station.
use merchant_operations_plat.Prelude.{
  Bool, true, false, ◌&&◌, Option, none, some, List, [], ◌∷◌, ◌++◌, Uuid, Text, Instant, find, any,
  ◌==◌,
}
use merchant_operations_plat.Digits.{Chars}
use merchant_operations_plat.Contracts.Kds.{KitchenTicketSource, same_source, new}
use merchant_operations_plat.Database.Faults.{Fault}
use merchant_operations_plat.Database.Action.{
  Action, pure, throw, gets, ◌>>=◌, ◌>>◌, throw_if, modify, new_id, transaction, catch_unique,
}
use merchant_operations_plat.Kds.Ticket.{
  KitchenTicket, KitchenTicketItem, KitchenStation, StatusHistory,
}

pub record NewKitchenTicket : Type 0 where
  pub actor_id : Option Uuid
  pub items : List KitchenTicketItem
  pub order_label : Chars
  pub outlet_id : Uuid
  pub received_at : Instant
  pub source : KitchenTicketSource
  pub source_reference : Text
  pub table_label : Option Text
  pub tenant_id : Uuid

-- `DEFAULT_STATION_NAME`
abbrev pub default_station_name : Text
default_station_name = 0

-- The unique index on tenant, source and reference.
abbrev pub has_source : Uuid → KitchenTicketSource → Text → KitchenTicket → Bool
has_source tenant source reference t =
    t.source_reference == reference && (same_source t.source source && t.tenant_id == tenant)

abbrev pub from_same_source : NewKitchenTicket → KitchenTicket → Bool
from_same_source n = has_source n.tenant_id n.source n.source_reference

abbrev pub by_source : NewKitchenTicket → Action (Option KitchenTicket)
by_source n = gets (λ db. find (from_same_source n) db.kitchen.tickets)

abbrev is_default_of : Uuid → Uuid → KitchenStation → Bool
is_default_of tenant outlet s = s.is_default && (s.outlet_id == outlet && s.tenant_id == tenant)

-- The unique index on tenant, outlet and name.
abbrev has_name : Uuid → Uuid → Text → KitchenStation → Bool
has_name tenant outlet name s = s.name == name && (s.outlet_id == outlet && s.tenant_id == tenant)

abbrev station_row : Uuid → Uuid → Uuid → KitchenStation
station_row tenant outlet id = record {
  id = id;
  tenant_id = tenant;
  outlet_id = outlet;
  name = default_station_name;
  is_default = true;
}

unfoldable pub insert_station : Uuid → Uuid → Action Uuid
insert_station tenant outlet = do
  taken ← gets (λ db. any (has_name tenant outlet default_station_name) db.kitchen.stations)
  throw_if taken Fault.unique_violation
  id ← new_id
  let row = station_row tenant outlet id
  modify (λ db. record db {
    kitchen = record db.kitchen { stations = db.kitchen.stations ++ row ∷ [] };
  })
  pure id

abbrev station_id_or : Option KitchenStation → Action Uuid → Action Uuid
station_id_or none otherwise = otherwise
station_id_or (some s) otherwise = pure s.id

unfoldable pub default_station_id : Uuid → Uuid → Action Uuid
unfolding insert_station
default_station_id tenant outlet = do
  existing ← gets (λ db. find (is_default_of tenant outlet) db.kitchen.stations)
  station_id_or existing (
      catch_unique (transaction (insert_station tenant outlet)) (do
        raced ← gets (λ db. find (is_default_of tenant outlet) db.kitchen.stations)
        station_id_or raced (throw Fault.unique_violation)))

abbrev pub ticket_row : NewKitchenTicket → Uuid → Uuid → KitchenTicket
ticket_row n station id = record {
  id = id;
  tenant_id = n.tenant_id;
  outlet_id = n.outlet_id;
  station_id = station;
  source = n.source;
  source_reference = n.source_reference;
  order_label = n.order_label;
  table_label = n.table_label;
  status = new;
  received_at = n.received_at;
  accepted_at = none;
  started_at = none;
  ready_at = none;
  served_at = none;
  canceled_at = none;
  updated_at = n.received_at;
  items = n.items;
}

abbrev pub record_history : StatusHistory → Action (Unit {0})
record_history h =
    modify
      (λ db. record db { kitchen = record db.kitchen { history = db.kitchen.history ++ h ∷ [] } })

-- The ticket, its items and the first line of its history are one nested write.
unfoldable pub insert_ticket : NewKitchenTicket → Uuid → Action (Bool × KitchenTicket)
insert_ticket n station = do
  taken ← gets (λ db. any (from_same_source n) db.kitchen.tickets)
  throw_if taken Fault.unique_violation
  id ← new_id
  let row = ticket_row n station id
  modify
      (λ db. record db { kitchen = record db.kitchen { tickets = db.kitchen.tickets ++ row ∷ [] } })
  record_history (record {
    ticket_id = id;
    tenant_id = n.tenant_id;
    from_status = none;
    to_status = new;
    actor_id = n.actor_id;
    occurred_at = n.received_at;
  })
  pure (true, row)

abbrev pub existing_or :
    Option KitchenTicket → Action (Bool × KitchenTicket) → Action (Bool × KitchenTicket)
existing_or none otherwise = otherwise
existing_or (some t) otherwise = pure (false, t)

unfoldable pub create : NewKitchenTicket → Action (Bool × KitchenTicket)
unfolding insert_ticket default_station_id
create n = do
  existing ← by_source n
  existing_or existing (do
    station ← default_station_id n.tenant_id n.outlet_id
    catch_unique (transaction (insert_ticket n station))
        (do raced ← by_source n; existing_or raced (throw Fault.unique_violation)))
