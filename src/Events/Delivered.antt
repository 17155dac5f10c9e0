-- ===== src/Events/Delivered.antt =====
-- apps/api/src/core/events: a handler that is done with an event is not called for it again.
use merchant_operations_plat.Prelude.{
  ◌≡◌, refl, inl, inr, Bool, true, false, Option, none, some, List, [], ◌∷◌, ◌++◌, Uuid, Result, ok,
  err, ==_refl, Bool-cases,
}
use merchant_operations_plat.Events.Stores.{
  OutboxRow, EventHandler, InboxRow, InboxStatus, processed, blocked, retrying, failed, find_status,
  record_delivery, is_delivery, inbox_row,
}
use merchant_operations_plat.Events.Dispatcher.{
  BindingDecision, block, run_it, skip, DispatcherOptions, HandlerOutcome, HandlerError, HandlerRun,
  Report, State, is_retry, run_handler, run_known, run_bound, call_handler, handled, blocked_event,
  other_error, done, held,
}

own_delivery :
    (event : OutboxRow) (h : EventHandler) (s : InboxStatus)
    → is_delivery event h (inbox_row event h s) ≡ true
own_delivery event h s =
    rw (==_refl event.id) (rw (==_refl h.consumer_name) (==_refl event.workspace_id))

-- The inbox says what was recorded last.
find_status-record_delivery :
    (event : OutboxRow) (h : EventHandler) (s : InboxStatus) (inbox : List InboxRow)
    → find_status event h (record_delivery event h s inbox) ≡ some s
unfolding find_status record_delivery
find_status-record_delivery event h s [] = rw (own_delivery event h s) refl
find_status-record_delivery event h s (i ∷ is) = elim (Bool-cases (is_delivery event h i)) [
  | inl e ↦ rw e (rw e refl)
  | inr e ↦ rw e (rw e (find_status-record_delivery event h s is))
]

module _ {W : Type 0} (handle : EventHandler → OutboxRow → W → HandlerRun W)
    (decide : EventHandler → OutboxRow → W → BindingDecision)
    (report : EventHandler → OutboxRow → Report → W → W) (is_available : Uuid → Uuid → W → Bool)
    (handlers : List EventHandler) (options : DispatcherOptions) where
  run : EventHandler → OutboxRow → State W → HandlerOutcome × State W
  run = run_handler handle decide report is_available handlers options

  -- With a final status in the inbox the handler is not called.
  run-processed :
      (h : EventHandler) (event : OutboxRow) (st : State W)
      → find_status event h st.inbox ≡ some processed
      → run h event st ≡ (done, st)
  unfolding run run_handler run_known
  run-processed h event st e = rw e refl

  run-blocked :
      (h : EventHandler) (event : OutboxRow) (st : State W)
      → find_status event h st.inbox ≡ some blocked
      → run h event st ≡ (held, st)
  unfolding run run_handler run_known
  run-blocked h event st e = rw e refl

  handled-final :
      (h : EventHandler) (event : OutboxRow) (st : State W) (r : Result HandlerError (Unit {0}))
      (world : W)
      → let (outcome, st') =
          handled handle decide report is_available handlers options h event st r world in
        is_retry outcome ≡ false → run h event st' ≡ (outcome, st')
  handled-final h event st (ok value) world final =
      run-processed h event _ (find_status-record_delivery event h processed st.inbox)
  handled-final h event st (err blocked_event) world final =
      run-blocked h event _ (find_status-record_delivery event h blocked st.inbox)
  handled-final h event st (err other_error) world final = cc

  run_bound-final :
      (h : EventHandler) (event : OutboxRow) (st : State W) (b : BindingDecision)
      → run h event st ≡ run_bound handle decide report is_available handlers options h event st b
      → let (outcome, st') =
          run_bound handle decide report is_available handlers options h event st b in
        is_retry outcome ≡ false → run h event st' ≡ (outcome, st')
  unfolding run_bound call_handler
  run_bound-final h event st skip same = λ final. same
  run_bound-final h event st block same =
      λ final. run-blocked h event _ (find_status-record_delivery event h blocked st.inbox)
  run_bound-final h event st run_it same =
      elim (Bool-cases (is_available event.workspace_id h.module_key st.world)) [
        | inl e ↦
            let r = handle h event st.world in
            rw e (
              handled-final h event (record st { outbox = st.outbox ++ r.announced }) r.result
                r.world)
        | inr e ↦ rw e (λ final. cc)
      ]

  run_known-final :
      (h : EventHandler) (event : OutboxRow) (st : State W) (status : Option InboxStatus)
      → find_status event h st.inbox ≡ status
      → let (outcome, st') =
          run_known handle decide report is_available handlers options h event st status in
        is_retry outcome ≡ false → run h event st' ≡ (outcome, st')
  unfolding run run_handler run_known
  run_known-final h event st (some processed) e = λ final. run-processed h event st e
  run_known-final h event st (some blocked) e = λ final. run-blocked h event st e
  run_known-final h event st (some failed) e = λ final. rw e refl
  run_known-final h event st (some retrying) e =
      run_bound-final h event st (decide h event st.world) (rw e refl)
  run_known-final h event st none e =
      run_bound-final h event st (decide h event st.world) (rw e refl)

  -- A handler that need not be tried again for an event is not called when the event comes
  -- again: the answer is the same and nothing is written.
  pub run_handler_again :
      (h : EventHandler) (event : OutboxRow) (st : State W)
      → is_retry (run_handler handle decide report is_available handlers options h event st).0
        ≡ false
      → let (outcome, st') =
          run_handler handle decide report is_available handlers options h event st in
        run_handler handle decide report is_available handlers options h event st' ≡ (outcome, st')
  unfolding run run_handler
  run_handler_again h event st = run_known-final h event st (find_status event h st.inbox) refl
