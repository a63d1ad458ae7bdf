-- ===== src/Events/Worker.antt =====
-- The outbox worker (app/core/events/worker.py): what it does with one event, and its batch.
-- A row is locked by `FOR UPDATE SKIP LOCKED` until its transaction ends; the batch below is that of
-- one worker, and `Turn.locked` says which rows other workers hold at each of its turns.
pub mod State
pub mod Settle
pub mod Progress
pub mod Select
pub mod Batch
pub mod Loop
use apsis.Prelude.{
  second, second, Instant, Uuid, ℕ, suc, zero, ◌+◌, ◌*◌, ◌^◌, min, Str, Dict, insert, lookup, Bool,
  true, false, not, ◌&&◌, Option, none, some, List, [], ◌∷◌, take, keep, leb, ltb, ◌==◌,
  if◌then◌else◌,
}
use mathlib.Core.Option
use apsis.Events.Outbox.{
  Status, pending, processed, failed, EntryStatus, ok_entry, failed_entry, Entry, OutboxEvent,
}
use apsis.Events.Dispatcher.{
  HandlerResult, DispatchResult, all_succeeded, errors_summary, EventDispatcher, dispatch,
}

abbrev pub batch_size : ℕ
batch_size = 50

abbrev pub max_backoff_hours : ℕ
max_backoff_hours = 1

abbrev is_ok : EntryStatus → Bool
is_ok ok_entry = true
is_ok failed_entry = false

-- The names whose entry in `handler_state` says "ok".
unfoldable pub completed_names : Dict Entry → List Str
completed_names [] = []
completed_names ((n, e) ∷ d) =
    let rest = completed_names d in if is_ok e.status then n ∷ rest else rest

-- `if r.error: entry["error"] = r.error[:500]`; an empty text is false.
unfoldable pub entry_error : Option Str → Option Str
entry_error none = none
entry_error (some []) = none
entry_error (some (c ∷ s)) = some (take 500 (c ∷ s))

unfoldable pub entry_of : Instant → HandlerResult → Entry
unfolding entry_error
entry_of now r = record {
  status = if r.success then ok_entry else failed_entry;
  at = now;
  error = entry_error r.error;
}

-- The loop that writes the results of this attempt into the new state.
unfoldable pub record_results : Instant → DispatchResult → Dict Entry → Dict Entry
record_results now [] state = state
record_results now (r ∷ rs) state =
    record_results now rs
      (if r.skipped then state else insert r.handler_name (entry_of now r) state)

-- The readings of the clock and of `random.uniform(0, 5)` (in microseconds) in one `_handle_event`.
pub record Readings : Type 0 where
  pub recorded_at : Instant
  pub settled_at : Instant
  pub jitter : ℕ

-- `min(2**retry_count + uniform(0, 5), MAX_BACKOFF_HOURS * 3600)` in microseconds.
unfoldable pub backoff : ℕ → ℕ → ℕ
backoff retry_count jitter =
    min (2 ^ retry_count * second + jitter) (max_backoff_hours * 3600 * second)

mark_processed : Readings → OutboxEvent → OutboxEvent
mark_processed t event = record event { status = processed; processed_at = some t.settled_at }

-- The `else` branch: one more retry, then either a dead letter or a later schedule.
mark_retry : Readings → Str → OutboxEvent → OutboxEvent
unfolding backoff
mark_retry t summary event =
    let retries = event.retry_count + 1 in
    let counted = record event { retry_count = retries; last_error = some summary } in
    if leb event.max_retries retries
    then record counted { status = failed }
    else record counted { scheduled_at = t.settled_at + backoff retries t.jitter }

-- What `_handle_event` does once the handlers have run.
unfoldable pub conclude : Readings → OutboxEvent → DispatchResult → OutboxEvent
unfolding mark_processed mark_retry
conclude t event results =
    let recorded = record event {
      handler_state = record_results t.recorded_at results event.handler_state;
    } in
    if all_succeeded results
    then mark_processed t recorded
    else mark_retry t (errors_summary results) recorded

module _ {W : Type 0} (d : EventDispatcher W) (timeout : ℕ) where
  -- `none`: a cancellation passed through, and the transaction is rolled back.
  unfoldable pub handle_event : Readings → OutboxEvent → W → Option OutboxEvent × W
  handle_event t event w =
      let (o, w') =
        dispatch d timeout event.event_type event.payload
          (some (completed_names event.handler_state)) w in
      (Option.map (conclude t event) o, w')

abbrev pub is_pending : Status → Bool
is_pending pending = true
is_pending _ = false

-- What the world gives one turn of the batch: the clock at the SELECT, the rows that other
-- workers' transactions hold locked, and the readings of `_handle_event`.
pub record Turn : Type 0 where
  pub selected_at : Instant
  pub locked : Uuid → Bool
  pub readings : Readings

-- The WHERE clauses, and the rows that SKIP LOCKED passes over.
unfoldable pub is_due : Turn → OutboxEvent → Bool
is_due turn e =
    is_pending e.status && (leb e.scheduled_at turn.selected_at && not (turn.locked e.id))

earlier : OutboxEvent → Option OutboxEvent → OutboxEvent
earlier e none = e
earlier e (some f) = if leb e.scheduled_at f.scheduled_at then e else f

-- ORDER BY scheduled_at LIMIT 1; among equals SQL may take any row, here the first.
unfoldable pub earliest : List OutboxEvent → Option OutboxEvent
unfolding earlier
earliest [] = none
earliest (e ∷ es) = some (earlier e (earliest es))

unfoldable pub select_event : Turn → List OutboxEvent → Option OutboxEvent
unfolding earliest is_due
select_event turn table = earliest (keep (is_due turn) table)

-- The UPDATE of the flushed row, by its primary key.
unfoldable pub update_row : OutboxEvent → List OutboxEvent → List OutboxEvent
update_row e [] = []
update_row e (r ∷ rs) = (if r.id == e.id then e else r) ∷ update_row e rs

-- How `_process_batch` ends: it found no due event at a turn, it made all its turns, or a
-- cancellation left it.
pub data BatchEnd : Type 0 where
  drained : Turn → BatchEnd
  exhausted : BatchEnd
  interrupted : BatchEnd

module _ {W : Type 0} (d : EventDispatcher W) (timeout : ℕ) where
  -- The loop of `_process_batch`, with the turns that are left; each turn is one transaction.
  unfoldable pub process_turns : List Turn → List OutboxEvent → W → BatchEnd × List OutboxEvent × W
  process_turns [] table w = (exhausted, table, w)
  process_turns (turn ∷ turns) table w = elim (select_event turn table) [
    | none ↦ (drained turn, table, w)
    | some e ↦
        let (o, w') = handle_event d timeout turn.readings e w in
        elim o [
          | none ↦ (interrupted, table, w')
          | some e' ↦ process_turns turns (update_row e' table) w'
        ]
  ]

  -- `range(BATCH_SIZE)`: the world offers turns, and the batch takes at most fifty.
  unfoldable pub process_batch : List Turn → List OutboxEvent → W → BatchEnd × List OutboxEvent × W
  unfolding process_turns
  process_batch turns table w = process_turns (take batch_size turns) table w
