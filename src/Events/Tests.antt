-- ===== src/Events/Tests.antt =====
-- apps/api/src/core/events with one handler, which fails each time and counts its calls.
use merchant_operations_plat.Prelude.{ℕ, ◌+◌, ◌≡◌, refl, Bool, true, none, [], ◌∷◌, Uuid, ok, err}
use merchant_operations_plat.Events.Stores.{
  OutboxRow, EventHandler, find_status, processed, inbox_row, record_delivery,
}
use merchant_operations_plat.Events.Dispatcher.{
  BindingDecision, run_it, DispatcherOptions, HandlerRun, other_error, done, Report, State,
  run_handler,
}
use merchant_operations_plat.Events.Delivered.{run_handler_again}

abbrev pub sample_event : OutboxRow
sample_event = record {
  id = 1;
  workspace_id = 2;
  event_type = 3;
  occurred_at = 10;
  available_at = 10;
  attempt_count = 0;
  processed_at = none;
  failed_at = none;
}

abbrev pub sample_handler : EventHandler
sample_handler = record { consumer_name = 4; event_type = 3; module_key = 5 }

abbrev pub failing : EventHandler → OutboxRow → ℕ → HandlerRun ℕ
failing h event calls = record { result = err other_error; world = calls + 1; announced = [] }

abbrev pub always : EventHandler → OutboxRow → ℕ → BindingDecision
always h event calls = run_it

abbrev pub serving : EventHandler → OutboxRow → ℕ → HandlerRun ℕ
serving h event calls = record { result = ok tt; world = calls + 1; announced = [] }

abbrev pub no_report : EventHandler → OutboxRow → Report → ℕ → ℕ
no_report h event report calls = calls

abbrev pub installed : Uuid → Uuid → ℕ → Bool
installed workspace key calls = true

-- `DEFAULT_DISPATCHER_OPTIONS`
abbrev pub default_options : DispatcherOptions
default_options = record {
  base_delay = 2000;
  batch_size = 20;
  lease = 60000;
  max_attempts = 8;
  max_delay = 900000;
}

abbrev pub sample_state : State ℕ
sample_state = record { outbox = sample_event ∷ []; inbox = []; world = 0 }

-- The handler was called once, and the inbox says so.
abbrev pub served_state : State ℕ
served_state = record sample_state {
  inbox = inbox_row sample_event sample_handler processed ∷ [];
  world = 1;
}

run_handler_again_example :
    run_handler serving always no_report installed
      (sample_handler ∷ [])
      default_options
      sample_handler
      sample_event
      served_state
    ≡ (done, served_state)
unfolding run_handler find_status record_delivery
run_handler_again_example =
    run_handler_again serving always no_report installed (sample_handler ∷ []) default_options
      sample_handler sample_event sample_state refl
