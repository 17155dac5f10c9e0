-- ===== src/Events/Dispatcher.antt =====
-- apps/api/src/core/events/outbox-dispatcher.ts: events are delivered to their handlers, tried
-- again with a growing delay, and set aside after a number of attempts.
use merchant_operations_plat.Prelude.{
  ℕ, ◌+◌, ◌-◌, ◌*◌, ◌^◌, min, Bool, true, false, Option, none, some, List, [], ◌∷◌, ◌++◌, Uuid,
  Instant, Result, ok, err, leb, if◌then◌else◌, length,
}
use merchant_operations_plat.Database.Tables.{update_many}
use merchant_operations_plat.Events.Stores.{
  OutboxRow, InboxStatus, processed, blocked, retrying, failed, InboxRow, EventHandler,
  handlers_for, claim, has_id, as_processed, as_failed, as_rescheduled, find_status,
  record_delivery,
}

pub data BindingDecision : Type 0 where
  block run_it skip : BindingDecision

pub record DispatcherOptions : Type 0 where
  pub base_delay : ℕ
  pub batch_size : ℕ
  pub lease : ℕ
  pub max_attempts : ℕ
  pub max_delay : ℕ

pub data HandlerOutcome : Type 0 where
  held done retry : HandlerOutcome

-- What a handler throws: `BlockedEventError`, or another error.
pub data HandlerError : Type 0 where
  blocked_event other_error : HandlerError

-- What a call of a handler comes to: its answer, what it did to the application, and the events that
-- it announced meanwhile, which are rows of the same outbox.
pub record HandlerRun (W : Type 0) : Type 0 where
  pub result : Result HandlerError (Unit {0})
  pub world : W
  pub announced : List OutboxRow

-- How a delivery went, for the binding.
pub data Report : Type 0 where
  went_well was_blocked : Report

-- `W` is what handlers and bindings act on besides the outbox: the rest of the application.
pub record State (W : Type 0) : Type 0 where
  pub outbox : List OutboxRow
  pub inbox : List InboxRow
  pub world : W

abbrev pub is_retry : HandlerOutcome → Bool
is_retry retry = true
is_retry _ = false

-- The handlers that have to be called again.
abbrev pub waiting : List (EventHandler × HandlerOutcome) → List EventHandler
waiting [] = []
waiting ((h, outcome) ∷ rest) = if is_retry outcome then h ∷ waiting rest else waiting rest

unfoldable pub delay_after : DispatcherOptions → ℕ → ℕ
delay_after options attempt = min (options.base_delay * 2 ^ (attempt - 1)) options.max_delay

module _ {W : Type 0} (handle : EventHandler → OutboxRow → W → HandlerRun W)
    (decide : EventHandler → OutboxRow → W → BindingDecision)
    (report : EventHandler → OutboxRow → Report → W → W) (is_available : Uuid → Uuid → W → Bool)
    (handlers : List EventHandler) (options : DispatcherOptions) where
  abbrev with_record : EventHandler → OutboxRow → InboxStatus → State W → State W
  with_record h event status st = record st { inbox = record_delivery event h status st.inbox }

  -- The `try` and its `catch`, on what the handler came to.
  abbrev pub handled :
      EventHandler
      → OutboxRow
      → State W
      → Result HandlerError (Unit {0})
      → W
      → HandlerOutcome × State W
  handled h event st (ok value) world =
      (done, with_record h event processed (record st { world = report h event went_well world }))
  handled h event st (err blocked_event) world =
      (held, with_record h event blocked (record st { world = report h event was_blocked world }))
  handled h event st (err other_error) world =
      (retry, with_record h event retrying (record st { world = world }))

  unfoldable pub call_handler : EventHandler → OutboxRow → State W → HandlerOutcome × State W
  call_handler h event st =
      let r = handle h event st.world in
      handled h event (record st { outbox = st.outbox ++ r.announced }) r.result r.world

  unfoldable pub run_bound :
      EventHandler → OutboxRow → State W → BindingDecision → HandlerOutcome × State W
  unfolding call_handler
  run_bound h event st skip = (done, st)
  run_bound h event st block = (held, with_record h event blocked st)
  run_bound h event st run_it =
      if is_available event.workspace_id h.module_key st.world
      then call_handler h event st
      else (retry, with_record h event retrying st)

  unfoldable pub run_known :
      EventHandler → OutboxRow → State W → Option InboxStatus → HandlerOutcome × State W
  unfolding run_bound
  run_known h event st (some processed) = (done, st)
  run_known h event st (some blocked) = (held, st)
  run_known h event st (some failed) = (held, st)
  run_known h event st (some retrying) = run_bound h event st (decide h event st.world)
  run_known h event st none = run_bound h event st (decide h event st.world)

  unfoldable pub run_handler : EventHandler → OutboxRow → State W → HandlerOutcome × State W
  unfolding run_known
  run_handler h event st = run_known h event st (find_status event h st.inbox)

  unfoldable pub run_handlers :
      List EventHandler → OutboxRow → State W → List (EventHandler × HandlerOutcome) × State W
  unfolding run_handler
  run_handlers [] event st = ([], st)
  run_handlers (h ∷ hs) event st =
      let (outcome, st1) = run_handler h event st in
      let (rest, st2) = run_handlers hs event st1 in ((h, outcome) ∷ rest, st2)

  unfoldable pub record_failed : List EventHandler → OutboxRow → List InboxRow → List InboxRow
  record_failed [] event inbox = inbox
  record_failed (h ∷ hs) event inbox = record_failed hs event (record_delivery event h failed inbox)

  -- What becomes of the event once its handlers have been called.
  unfoldable pub settle : Instant → OutboxRow → List EventHandler → State W → State W
  unfolding record_failed delay_after
  settle now event [] st = record st {
    outbox = update_many (has_id event.id) (as_processed now) st.outbox;
  }
  settle now event (h ∷ hs) st =
      if leb options.max_attempts event.attempt_count
      then record st {
        outbox = update_many (has_id event.id) (as_failed now) st.outbox;
        inbox = record_failed (h ∷ hs) event st.inbox;
      }
      else record st {
        outbox =
            update_many (has_id event.id)
              (as_rescheduled (now + delay_after options event.attempt_count)) st.outbox;
      }

  unfoldable pub deliver : Instant → OutboxRow → State W → State W
  unfolding run_handlers settle
  deliver now event st =
      let (outcomes, st1) = run_handlers (handlers_for event.event_type handlers) event st in
      settle now event (waiting outcomes) st1

  unfoldable pub deliver_all : Instant → List OutboxRow → State W → State W
  unfolding deliver
  deliver_all now [] st = st
  deliver_all now (event ∷ events) st = deliver_all now events (deliver now event st)

  -- `dispatchBatch`, and how many events it took.
  unfoldable pub dispatch_batch : Instant → State W → ℕ × State W
  unfolding deliver_all
  dispatch_batch now st =
      let (claimed, rows) = claim options.batch_size options.lease now st.outbox in
      (length claimed, deliver_all now claimed (record st { outbox = rows }))
