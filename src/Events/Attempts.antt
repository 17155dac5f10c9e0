-- ===== src/Events/Attempts.antt =====
-- apps/api/src/core/events/outbox-dispatcher.ts: an event is not tried for ever.
use mathlib.Core.List.{append-nil}
use merchant_operations_plat.Prelude.{
  ℕ, ◌+◌, ◌≡◌, refl, sym, subst, ◌∙◌, arith, inl, inr, Bool, true, false, ◌||◌, List, [], ◌∷◌, Uuid,
  Instant, All, leb, ltb, Bool-cases,
}
use merchant_operations_plat.Events.Stores.{
  OutboxRow, EventHandler, claim, has_id, as_processed, as_failed, as_rescheduled, handlers_for,
}
use merchant_operations_plat.Events.Dispatcher.{
  BindingDecision, DispatcherOptions, HandlerRun, Report, State, waiting, run_handler, run_known,
  run_bound, call_handler, run_handlers, settle, deliver, deliver_all, dispatch_batch, delay_after,
}
use merchant_operations_plat.Events.Claims.{
  is_settled, is_good, IsTriedWithin, All-update_many, All-both, or_nothing, All-units,
  claim-is_good,
}

not_claimed :
    (most : ℕ) (event r : OutboxRow) (rest : List OutboxRow)
    → is_good most (event ∷ rest) r ≡ true
    → has_id event.id r ≡ false
    → is_good most rest r ≡ true
not_claimed most event r rest g e = ground arith

failed_good :
    (most : ℕ) (now : Instant) (rest : List OutboxRow) (r : OutboxRow)
    → is_good most rest (as_failed now r) ≡ true
failed_good most now rest r = ground arith

attempts_left :
    (most : ℕ) (event r : OutboxRow) (rest : List OutboxRow)
    → is_good most (event ∷ rest) r ≡ true
    → leb most event.attempt_count ≡ false
    → is_good most rest r ≡ true
attempts_left most event r rest g e = ground arith

module _ {W : Type 0} (handle : EventHandler → OutboxRow → W → HandlerRun W)
    (decide : EventHandler → OutboxRow → W → BindingDecision)
    (report : EventHandler → OutboxRow → Report → W → W) (is_available : Uuid → Uuid → W → Bool)
    (handlers : List EventHandler) (options : DispatcherOptions)
    (quiet : (h : EventHandler) (event : OutboxRow) (w : W)
      → (handle h event w).announced ≡ []) where
  -- Calling handlers that announce nothing leaves the outbox alone.
  run_handler-outbox :
      (h : EventHandler) (event : OutboxRow) (st : State W)
      → (run_handler handle decide report is_available handlers options h event st).1.outbox
        ≡ st.outbox
  unfolding run_handler run_known run_bound call_handler
  run_handler-outbox h event st = ground (arith, quiet h event st.world, append-nil st.outbox)

  pub run_handlers-outbox :
      (hs : List EventHandler) (event : OutboxRow) (st : State W)
      → (run_handlers handle decide report is_available handlers options hs event st).1.outbox
        ≡ st.outbox
  unfolding run_handlers
  run_handlers-outbox [] event st = refl
  run_handlers-outbox (h ∷ hs) event st =
      run_handlers-outbox hs event
        (run_handler handle decide report is_available handlers options h event st).1
      ∙ run_handler-outbox h event st

  -- A delivery settles its event or gives it back with attempts left.
  settle-is_good :
      (now : Instant) (event : OutboxRow) (rest : List OutboxRow) (hs : List EventHandler)
      (st : State W)
      → All (λ r. is_good options.max_attempts (event ∷ rest) r ≡ true) st.outbox
      → All
          (λ r. is_good options.max_attempts rest r ≡ true)
          (settle handle decide report is_available handlers options now event hs st).outbox
  unfolding settle
  settle-is_good now event rest [] st h =
      All-update_many {P = λ r. is_good options.max_attempts (event ∷ rest) r ≡ true}
        {Q = λ r. is_good options.max_attempts rest r ≡ true} (has_id event.id) (as_processed now)
        st.outbox h (λ r g e. refl) (λ r g e. not_claimed options.max_attempts event r rest g e)
  settle-is_good now event rest (k ∷ ks) st h =
      elim (Bool-cases (leb options.max_attempts event.attempt_count)) [
        | inl e ↦ rw e (
            All-update_many {P = λ r. is_good options.max_attempts (event ∷ rest) r ≡ true}
              {Q = λ r. is_good options.max_attempts rest r ≡ true} (has_id event.id)
              (as_failed now) st.outbox h (λ r g f. failed_good options.max_attempts now rest r)
              (λ r g f. not_claimed options.max_attempts event r rest g f))
        | inr e ↦ rw e (
            All-update_many {P = λ r. is_good options.max_attempts (event ∷ rest) r ≡ true}
              {Q = λ r. is_good options.max_attempts rest r ≡ true} (has_id event.id)
              (as_rescheduled (now + delay_after options event.attempt_count)) st.outbox h
              (λ r g f. attempts_left options.max_attempts event r rest g e)
              (λ r g f. not_claimed options.max_attempts event r rest g f))
      ]

  deliver_all-is_good :
      (now : Instant) (events : List OutboxRow) (st : State W)
      → All (λ r. is_good options.max_attempts events r ≡ true) st.outbox
      → All
          (λ r. is_good options.max_attempts [] r ≡ true)
          (deliver_all handle decide report is_available handlers options now events st).outbox
  unfolding deliver_all deliver
  deliver_all-is_good now [] st h = h
  deliver_all-is_good now (event ∷ events) st h =
      let hs = handlers_for event.event_type handlers in
      let called = run_handlers handle decide report is_available handlers options hs event st in
      let same = run_handlers-outbox hs event st in
      deliver_all-is_good now events
        (settle handle decide report is_available handlers options now event (waiting called.0)
          called.1)
        (settle-is_good now event events (waiting called.0) called.1
          (subst (All (λ r. is_good options.max_attempts (event ∷ events) r ≡ true)) (sym same) h))

  -- Where the handlers announce nothing themselves, a batch leaves every event processed, set aside, or tried less
  -- often than `max_attempts`, where that held before.
  pub dispatch_batch-IsTriedWithin :
      (now : Instant) (st : State W)
      → IsTriedWithin options.max_attempts st.outbox
      → IsTriedWithin options.max_attempts
          (dispatch_batch handle decide report is_available handlers options now st).1.outbox
  unfolding dispatch_batch
  dispatch_batch-IsTriedWithin now st h =
      let (claimed, updated) = claim options.batch_size options.lease now st.outbox in
      All-both {P = λ r. is_good options.max_attempts [] r ≡ true} {Q = λ r. Unit {0}}
        {R = λ r. (is_settled r || ltb r.attempt_count options.max_attempts) ≡ true}
        (deliver_all handle decide report is_available handlers options now claimed
          (record st { outbox = updated })).outbox
        (deliver_all-is_good now claimed (record st { outbox = updated })
          (claim-is_good options.max_attempts options.batch_size options.lease now st.outbox h))
        (All-units
          (deliver_all handle decide report is_available handlers options now claimed
            (record st { outbox = updated })).outbox)
        (λ r g u. or_nothing (is_settled r) (ltb r.attempt_count options.max_attempts) g)
