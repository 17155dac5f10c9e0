-- ===== src/Events/Stores.antt =====
-- apps/api/src/core/events/prisma-event-stores.ts and event-handler.ts: the outbox of events, the
-- inbox of their deliveries, and the registered handlers. Messages of errors are not modelled.
use merchant_operations_plat.Prelude.{
  ℕ, zero, suc, ◌+◌, Bool, true, false, ◌&&◌, ◌||◌, Option, none, some, List, [], ◌∷◌, ◌++◌, map,
  Uuid, Text, Instant, contains, filter, find, any, leb, ltb, ◌==◌, if◌then◌else◌,
}
use merchant_operations_plat.Database.Tables.{update_many}

-- A row of `outbox_events`, with the part of the envelope that is read here.
pub record OutboxRow : Type 0 where
  pub id : Uuid
  pub workspace_id : Uuid
  pub event_type : Text
  pub occurred_at : Instant
  pub available_at : Instant
  pub attempt_count : ℕ
  pub processed_at : Option Instant
  pub failed_at : Option Instant

pub data InboxStatus : Type 0 where
  processed blocked retrying failed : InboxStatus

pub record InboxRow : Type 0 where
  pub workspace_id : Uuid
  pub consumer_name : Text
  pub event_id : Uuid
  pub status : InboxStatus
  pub attempt_count : ℕ

pub record EventHandler : Type 0 where
  pub consumer_name : Text
  pub event_type : Text
  pub module_key : Uuid

-- `EventHandlerRegistry.register`: a name is registered once.
unfoldable pub register : EventHandler → List EventHandler → Option (List EventHandler)
register h hs =
    if any (λ (k : EventHandler). k.consumer_name == h.consumer_name) hs
    then none
    else some (hs ++ h ∷ [])

-- `EventHandlerRegistry.for`
unfoldable pub handlers_for : Text → List EventHandler → List EventHandler
handlers_for type hs = filter (λ (h : EventHandler). h.event_type == type) hs

abbrev is_none : Option Instant → Bool
is_none none = true
is_none (some _) = false

abbrev pub is_due : Instant → OutboxRow → Bool
is_due now r = is_none r.processed_at && (is_none r.failed_at && leb r.available_at now)

-- `ORDER BY "occurred_at", "id"`
abbrev pub is_before : OutboxRow → OutboxRow → Bool
is_before r s = ltb r.occurred_at s.occurred_at || (r.occurred_at == s.occurred_at && leb r.id s.id)

unfoldable pub insert_row :
    (OutboxRow → OutboxRow → Bool) → OutboxRow → List OutboxRow → List OutboxRow
insert_row before r [] = r ∷ []
insert_row before r (s ∷ ss) =
    let rest = insert_row before r ss in if before r s then r ∷ s ∷ ss else s ∷ rest

unfoldable pub sort_rows : (OutboxRow → OutboxRow → Bool) → List OutboxRow → List OutboxRow
unfolding insert_row
sort_rows before [] = []
sort_rows before (r ∷ rs) = insert_row before r (sort_rows before rs)

abbrev pub take : ℕ → List OutboxRow → List OutboxRow
take zero rs = []
take (suc n) [] = []
take (suc n) (r ∷ rs) = r ∷ take n rs

-- The rows that the `UPDATE` picks.
unfoldable pub picked_ids : ℕ → Instant → List OutboxRow → List Uuid
unfolding sort_rows
picked_ids limit now rows =
    map (λ (r : OutboxRow). r.id) (take limit (sort_rows is_before (filter (is_due now) rows)))

abbrev pub as_claimed : Instant → OutboxRow → OutboxRow
as_claimed lease_until r = record r {
  available_at = lease_until;
  attempt_count = r.attempt_count + 1;
}

abbrev pub is_picked : List Uuid → OutboxRow → Bool
is_picked ids r = contains r.id ids

abbrev pub no_later : OutboxRow → OutboxRow → Bool
no_later r s = leb r.occurred_at s.occurred_at

-- `claim`: the rows after the update, and those of them that it returns, by their time.
unfoldable pub claim : ℕ → ℕ → Instant → List OutboxRow → List OutboxRow × List OutboxRow
unfolding picked_ids sort_rows
claim limit lease now rows =
    let ids = picked_ids limit now rows in
    let updated = update_many (is_picked ids) (as_claimed (now + lease)) rows in
    (sort_rows no_later (filter (is_picked ids) updated), updated)

abbrev pub has_id : Uuid → OutboxRow → Bool
has_id id r = r.id == id

abbrev pub as_processed : Instant → OutboxRow → OutboxRow
as_processed now r = record r { processed_at = some now }

abbrev pub as_failed : Instant → OutboxRow → OutboxRow
as_failed now r = record r { failed_at = some now }

abbrev pub as_rescheduled : Instant → OutboxRow → OutboxRow
as_rescheduled at r = record r { available_at = at }

-- The unique index on tenant, consumer and event.
abbrev pub is_delivery : OutboxRow → EventHandler → InboxRow → Bool
is_delivery event h i =
    i.event_id == event.id
    && (i.consumer_name == h.consumer_name && i.workspace_id == event.workspace_id)

abbrev pub status_option : Option InboxRow → Option InboxStatus
status_option none = none
status_option (some i) = some i.status

unfoldable pub find_status : OutboxRow → EventHandler → List InboxRow → Option InboxStatus
find_status event h inbox = status_option (find (is_delivery event h) inbox)

abbrev pub inbox_row : OutboxRow → EventHandler → InboxStatus → InboxRow
inbox_row event h status = record {
  workspace_id = event.workspace_id;
  consumer_name = h.consumer_name;
  event_id = event.id;
  status = status;
  attempt_count = 1;
}

abbrev pub with_status : InboxStatus → InboxRow → InboxRow
with_status status i = record i { status = status; attempt_count = i.attempt_count + 1 }

-- `record`, an upsert.
unfoldable pub record_delivery :
    OutboxRow → EventHandler → InboxStatus → List InboxRow → List InboxRow
record_delivery event h status [] = inbox_row event h status ∷ []
record_delivery event h status (i ∷ is) =
    let rest = record_delivery event h status is in
    if is_delivery event h i then with_status status i ∷ is else i ∷ rest
