-- ===== src/Events/Busy.antt =====
-- apps/api/src/core/events/outbox-dispatcher.ts: the dispatcher runs out of work.
use merchant_operations_plat.Prelude.{
  ℕ, suc, Bool, List, [], ◌∷◌, Uuid, Instant, ◌==◌, if◌then◌else◌,
}
use merchant_operations_plat.Events.Stores.{OutboxRow, EventHandler}
use merchant_operations_plat.Events.Dispatcher.{
  BindingDecision, DispatcherOptions, HandlerRun, Report, State, dispatch_batch,
}

module _ {W : Type 0} (handle : EventHandler → OutboxRow → W → HandlerRun W)
    (decide : EventHandler → OutboxRow → W → BindingDecision)
    (report : EventHandler → OutboxRow → Report → W → W) (is_available : Uuid → Uuid → W → Bool)
    (handlers : List EventHandler) (options : DispatcherOptions) where
  -- How many of the batches at these times took an event.
  pub busy_batches : List Instant → State W → ℕ
  unfolding dispatch_batch
  busy_batches [] st = 0
  busy_batches (now ∷ times) st =
      let (taken, st1) = dispatch_batch handle decide report is_available handlers options now st in
      let rest = busy_batches times st1 in if taken == 0 then rest else suc rest
