-- ===== src/Tests/Events.antt =====
-- The outbox at concrete inputs.
use apsis.Prelude.{
  ℕ, codes, second, ◌+◌, ◌*◌, ◌≤◌, returned, raised, false, none, some, [], ◌∷◌, All, lookup,
  insert, str_eq, contains, ◌≡◌, ◌≢◌, refl, arith,
}
use apsis.Events.Outbox.{pending, ok_entry, OutboxEvent}
use apsis.Events.Dispatcher.{
  Handler, DispatchResult, EventDispatcher, dispatch, attempt, handlers_for, all_succeeded,
}
use apsis.Events.Dispatcher.Isolation.{
  NeverCancelled, AllReported, outstanding, run_all, dispatch_isolates,
}
use apsis.Events.Dispatcher.Skipping.{replace_handler}
use apsis.Events.Worker.{
  Readings, Turn, is_due, select_event, handle_event, backoff, process_batch, completed_names,
  conclude, record_results, entry_of, update_row,
}
use apsis.Events.Worker.Settle.{
  IsWellFormed, Settles, dispatched, handle_event-Settles, backoff_grows,
}
use apsis.Events.Worker.Progress.{HasDone, attempts, attempts_settle, attempts_at_most_once}
use apsis.Events.Worker.Select.{Selects, select_event-Selects}
use apsis.Events.Worker.Batch.{Rows, process_batch-Rows, process_batch_drains}

-- A handler that succeeds, and one that always fails; the world counts the calls.
abbrev fine : Handler ℕ
fine = record { name = codes "fine"; run = λ timeout payload w. (returned, w + 1) }

abbrev boom : Handler ℕ
boom = record { name = codes "boom"; run = λ timeout payload w. (raised (codes "error"), w + 1) }

abbrev dispatcher : EventDispatcher ℕ
dispatcher = (codes "x", fine ∷ boom ∷ []) ∷ []

abbrev event : OutboxEvent
event = record {
  id = 1;
  aggregate_id = none;
  correlation_id = none;
  event_type = codes "x";
  payload = [];
  status = pending;
  retry_count = 0;
  max_retries = 2;
  scheduled_at = 10;
  last_error = none;
  created_at = 10;
  processed_at = none;
  handler_state = [];
}

abbrev half_done : OutboxEvent
half_done = record event {
  retry_count = 1;
  handler_state = (codes "fine", record { status = ok_entry; at = 5; error = none }) ∷ [];
}

abbrev readings : Readings
readings = record { recorded_at = 20; settled_at = 21; jitter = 7 }

abbrev turn : Turn
turn = record { selected_at = 19; locked = λ i. false; readings = readings }

event-IsWellFormed : IsWellFormed event
event-IsWellFormed = record {
  pending_below = λ h. omega arith;
  failed_at_limit = λ h. absurd (cc h);
  processed_stamped = λ h. absurd (cc h);
  open_unstamped = λ h. refl;
  state_unique = tt;
}

calm : All NeverCancelled (handlers_for (codes "x") dispatcher)
unfolding handlers_for lookup str_eq
calm = ((λ timeout payload w h. cc), ((λ timeout payload w h. cc), tt))

dispatch_isolates_example :
    (results : DispatchResult) × (dispatch dispatcher 30 (codes "x") [] (some (codes "fine" ∷ [])) 0
      ≡ (
        some results,
        run_all 30 [] (outstanding (codes "fine" ∷ []) (handlers_for (codes "x") dispatcher)) 0,
      ))
    × AllReported (codes "fine" ∷ []) (handlers_for (codes "x") dispatcher) results
dispatch_isolates_example =
    dispatch_isolates dispatcher 30 (codes "x") [] (codes "fine" ∷ []) 0 calm

-- The first attempt fails, and only the failing handler runs again.
one_retry : (attempts dispatcher 30 (readings ∷ readings ∷ readings ∷ []) event 0).1 ≡ 3
unfolding attempts handle_event dispatch attempt completed_names conclude all_succeeded
    record_results entry_of update_row lookup insert str_eq contains
one_retry = refl

attempts_settle_example :
    (attempts dispatcher 30 (readings ∷ readings ∷ []) event 0).0.status ≢ pending
attempts_settle_example =
    attempts_settle dispatcher 30 (readings ∷ readings ∷ []) event 0 event-IsWellFormed calm
      (omega arith)

attempts_at_most_once_example :
    (attempts (replace_handler (codes "fine") boom.run dispatcher) 30 (readings ∷ []) half_done 0
      ≡ attempts dispatcher 30 (readings ∷ []) half_done 0)
    × HasDone (codes "fine") (attempts dispatcher 30 (readings ∷ []) half_done 0).0
attempts_at_most_once_example =
    attempts_at_most_once dispatcher 30 (codes "fine") boom.run (readings ∷ []) half_done 0
      ((unfold lookup in refl, tt), unfold completed_names contains str_eq in refl)

abbrev retried : OutboxEvent
retried = (attempts dispatcher 30 (readings ∷ []) event 0).0

handle_event-Settles_example :
    (results : DispatchResult) × ((dispatched dispatcher 30 readings event 0).0 ≡ some results)
    × Settles readings event (all_succeeded results) retried
handle_event-Settles_example =
    handle_event-Settles dispatcher 30 readings event 0 {e' = retried} refl
      (unfold attempts handle_event dispatch attempt completed_names lookup str_eq contains in refl)

backoff_grows_example : backoff 3 (5 * second) ≤ backoff 4 0
backoff_grows_example = backoff_grows 3 (5 * second) 0 (omega arith) (omega arith)

select_event-Selects_example : Selects turn (event ∷ []) (select_event turn (event ∷ []))
select_event-Selects_example = select_event-Selects turn (event ∷ [])

process_batch-Rows_example :
    Rows (event ∷ []) (process_batch dispatcher 30 (turn ∷ []) (event ∷ []) 0).1
process_batch-Rows_example = process_batch-Rows dispatcher 30 (turn ∷ []) (event ∷ []) 0 (tt, tt)

process_batch_drains_example :
    All
      (λ r. is_due turn r ≡ false)
      (process_batch dispatcher 30 (turn ∷ turn ∷ []) (event ∷ []) 0).1
process_batch_drains_example =
    process_batch_drains dispatcher 30 (turn ∷ turn ∷ []) (event ∷ []) 0 turn (
      unfold process_batch select_event handle_event dispatch attempt completed_names conclude
        all_succeeded record_results entry_of update_row lookup insert str_eq contains in
      refl)
