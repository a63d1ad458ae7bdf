-- ===== src/Events/Worker/Settle.antt =====
-- How `_handle_event` leaves an event: processed, rescheduled with backoff, or dead.
use mathlib.Core.Path.{subst}
use native.Mathlib.Nat.{pow-suc}
use apsis.Prelude.{
  second, ℕ, zero, suc, ◌+◌, ◌*◌, ◌^◌, ◌≤◌, ◌<◌, Bool, true, false, Option, none, some, is_some,
  ◌≡◌, ◌≢◌, ◌↔◌, inl, inr, Option-cases, if◌then◌else◌, arith, Unique,
}
use apsis.Events.Outbox.{OutboxEvent, pending, processed, failed}
use apsis.Events.Dispatcher.{DispatchResult, all_succeeded, EventDispatcher, dispatch}
use apsis.Events.Worker.{Readings, backoff, conclude, handle_event, completed_names}
use apsis.Events.Worker.State.{record_results-Unique}

pub pow_pos : (n : ℕ) → 1 ≤ 2 ^ n
pow_pos zero = omega arith
pow_pos (suc n) = rw pow-suc (omega (arith, pow_pos n))

-- A backoff lies between one second and an hour, and within the jitter of the exact power of two.
pub backoff_bounds :
    (retries jitter : ℕ)
    → (second ≤ backoff retries jitter)
      × (backoff retries jitter ≤ 3600 * second)
      × (backoff retries jitter ≤ 2 ^ retries * second + jitter)
unfolding backoff
backoff_bounds retries jitter =
    (omega (arith, pow_pos retries), omega (arith, pow_pos retries), omega (arith, pow_pos retries))

eight-le-pow : (n : ℕ) → 8 ≤ 2 ^ suc (suc (suc n))
eight-le-pow n = omega (arith, pow_pos n, pow-suc 2 n, pow-suc 2 (suc n), pow-suc 2 (suc (suc n)))

-- From the third retry on, the delay after one more failure is at least as long as the delay before
-- it, whatever jitter of at most five seconds the earlier one drew.
pub backoff_grows :
    (retries j j' : ℕ) → 3 ≤ retries → j ≤ 5 * second → backoff retries j ≤ backoff (suc retries) j'
unfolding backoff
backoff_grows zero j j' h k = absurd (omega arith)
backoff_grows (suc zero) j j' h k = absurd (omega arith)
backoff_grows (suc (suc zero)) j j' h k = absurd (omega arith)
backoff_grows (suc (suc (suc r))) j j' h k =
    omega (arith, pow-suc 2 (suc (suc (suc r))), eight-le-pow r)

-- What holds of an outbox row between two transactions.
pub record IsWellFormed (e : OutboxEvent) : Type 0 where
  pub pending_below : e.status ≡ pending → e.retry_count < e.max_retries
  pub failed_at_limit : e.status ≡ failed → e.retry_count ≡ e.max_retries
  pub processed_stamped : e.status ≡ processed → is_some e.processed_at ≡ true
  pub open_unstamped : e.status ≢ processed → e.processed_at ≡ none
  pub state_unique : Unique e.handler_state

-- `conclude` turns a well-formed pending event into a well-formed event.
pub conclude-IsWellFormed :
    (t : Readings) (e : OutboxEvent) (results : DispatchResult)
    → e.status ≡ pending
    → IsWellFormed e
    → IsWellFormed (conclude t e results)
unfolding conclude
conclude-IsWellFormed t e results p wf =
    ground (arith, record_results-Unique t.recorded_at results e.handler_state wf.state_unique)

-- How one attempt takes the pending event `e` to `e'`, where `ok` says that every handler succeeded.
pub record Settles (t : Readings) (e : OutboxEvent) (ok : Bool) (e' : OutboxEvent) : Type 0 where
  pub same_event :
      (e'.id ≡ e.id)
      × (e'.event_type ≡ e.event_type)
      × (e'.payload ≡ e.payload)
      × (e'.max_retries ≡ e.max_retries)
  pub processed_iff : (e'.status ≡ processed) ↔ (ok ≡ true)
  pub failed_iff : (e'.status ≡ failed) ↔ ((ok ≡ false) × (e.max_retries ≤ e.retry_count + 1))
  pub counted : e'.retry_count ≡ e.retry_count + (if ok then 0 else 1)
  pub later :
      e'.status ≡ pending
      → (t.settled_at + second ≤ e'.scheduled_at) × (e'.scheduled_at ≤ t.settled_at + 3600 * second)
  pub settled_stays : e'.status ≢ pending → e'.scheduled_at ≡ e.scheduled_at

pub conclude-Settles :
    (t : Readings) (e : OutboxEvent) (results : DispatchResult)
    → e.status ≡ pending
    → Settles t e (all_succeeded results) (conclude t e results)
unfolding conclude
conclude-Settles t e results p = record {
  same_event = ground arith;
  processed_iff = ground arith;
  failed_iff = ground arith;
  counted = ground arith;
  later = ground (arith, backoff_bounds (e.retry_count + 1) t.jitter);
  settled_stays = ground arith;
}

module _ {W : Type 0} (d : EventDispatcher W) (timeout : ℕ) (t : Readings) (e : OutboxEvent)
    (w : W) where
  -- The dispatch that `_handle_event` makes.
  abbrev pub dispatched : Option DispatchResult × W
  dispatched = dispatch d timeout e.event_type e.payload (some (completed_names e.handler_state)) w

  -- An attempt on a pending event that no cancellation cuts short settles it: processed exactly if
  -- every handler's result is a success; dead exactly if one is not and this was the last retry; and
  -- otherwise pending again, with one more retry counted, and due between a second and an hour after
  -- the clock reading. The event's identity, type, payload and retry limit stay.
  pub handle_event-Settles :
      {e' : OutboxEvent}
      → e.status ≡ pending
      → (handle_event d timeout t e w).0 ≡ some e'
      → (results : DispatchResult) × (dispatched.0 ≡ some results)
        × Settles t e (all_succeeded results) e'
  unfolding handle_event
  handle_event-Settles p h = elim (Option-cases dispatched.0) [
    | inl gone ↦ absurd (ground (arith, gone))
    | inr (results, got) ↦ (
      results,
      got,
      subst (Settles t e (all_succeeded results)) (ground arith) (conclude-Settles t e results p),
    )
  ]

  -- Such an attempt also keeps the row well formed.
  pub handle_event-IsWellFormed :
      {e' : OutboxEvent}
      → e.status ≡ pending
      → (handle_event d timeout t e w).0 ≡ some e'
      → IsWellFormed e
      → IsWellFormed e'
  unfolding handle_event
  handle_event-IsWellFormed p h wf = elim (Option-cases dispatched.0) [
    | inl gone ↦ absurd (ground (arith, gone))
    | inr (results, got) ↦
        subst IsWellFormed (ground arith) (conclude-IsWellFormed t e results p wf)
  ]
