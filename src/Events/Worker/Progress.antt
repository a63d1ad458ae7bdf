-- ===== src/Events/Worker/Progress.antt =====
-- One event over all its attempts, cancelled ones included.
use mathlib.Core.Path.{subst}
use apsis.Prelude.{
  Outcome, ℕ, ◌+◌, ◌≤◌, Str, true, Option, none, some, List, [], ◌∷◌, length, ◌≡◌, ◌≢◌, refl, sym,
  arith, All, Option-cases, inl, inr, ◌⊎◌, Unique,
}
use apsis.Events.Outbox.{Status, pending, processed, failed, Payload, OutboxEvent}
use apsis.Events.Dispatcher.{DispatchResult, EventDispatcher, handlers_for, dispatch}
use apsis.Events.Dispatcher.Isolation.{NeverCancelled, dispatch_isolates, dispatch-AllReported}
use apsis.Events.Dispatcher.Skipping.{replace_handler, dispatch-replace}
use apsis.Events.Worker.{Readings, completed_names, record_results, conclude, handle_event}
use apsis.Events.Worker.State.{is_done, record_results_done}
use apsis.Events.Worker.Settle.{IsWellFormed, conclude-IsWellFormed, conclude-Settles}

-- What the table holds after a transaction: a rolled back one leaves the event as it was.
abbrev pub committed : OutboxEvent → Option OutboxEvent → OutboxEvent
committed e none = e
committed e (some e') = e'

Status-cases : (s : Status) → (s ≡ pending) ⊎ (s ≢ pending)
Status-cases pending = inl refl
Status-cases processed = inr (λ h. cc)
Status-cases failed = inr (λ h. cc)

module _ {W : Type 0} (d : EventDispatcher W) (timeout : ℕ) where
  -- The worker attempts an event once for each reading, as long as it is pending.
  unfoldable pub attempts : List Readings → OutboxEvent → W → OutboxEvent × W
  attempts [] e w = (e, w)
  attempts (t ∷ ts) e w = elim e.status [
    | pending ↦ let (o, w') = handle_event d timeout t e w in attempts ts (committed e o) w'
    | _ ↦ (e, w)
  ]

  attempts_settled :
      (ts : List Readings) (e : OutboxEvent) (w : W) → e.status ≢ pending → attempts ts e w ≡ (e, w)
  unfolding attempts
  attempts_settled [] e w h = refl
  attempts_settled (t ∷ ts) e w h = ground arith

  attempts_pending :
      (t : Readings) (ts : List Readings) (e : OutboxEvent) (w : W)
      → e.status ≡ pending
      → attempts (t ∷ ts) e w
        ≡ attempts ts
            (committed e (handle_event d timeout t e w).0)
            (handle_event d timeout t e w).1
  unfolding attempts
  attempts_pending t ts e w h = ground arith

  handle_event_calm :
      (t : Readings) (e : OutboxEvent) (w : W)
      → All NeverCancelled (handlers_for e.event_type d)
      → (results : DispatchResult) × ((handle_event d timeout t e w).0
          ≡ some (conclude t e results))
  unfolding handle_event
  handle_event_calm t e w calm =
      let (results, ran, reported) =
        dispatch_isolates d timeout e.event_type e.payload (completed_names e.handler_state) w
          calm in
      (results, rw ran)

  -- An attempt that leaves the event pending uses up one of its retries.
  retry_spent :
      (t : Readings) (e : OutboxEvent) (results : DispatchResult)
      → e.status ≡ pending
      → (conclude t e results).status ≡ pending
      → ((conclude t e results).retry_count ≡ e.retry_count + 1)
        × ((conclude t e results).max_retries ≡ e.max_retries)
  retry_spent t e results waiting again =
      let s = conclude-Settles t e results waiting in
      (ground (arith, s.processed_iff, s.counted), s.same_event.3)

  -- A well-formed event whose handlers are never cancelled is processed or dead after as many
  -- attempts as it has retries left; there is no endless redelivery.
  pub attempts_settle :
      (ts : List Readings) (e : OutboxEvent) (w : W)
      → IsWellFormed e
      → All NeverCancelled (handlers_for e.event_type d)
      → e.max_retries ≤ e.retry_count + length ts
      → (attempts ts e w).0.status ≢ pending
  attempts_settle [] e w wf calm enough =
      unfold attempts in (λ p. ground (arith, wf.pending_below p))
  attempts_settle (t ∷ ts) e w wf calm enough = elim (Status-cases e.status) [
    | inr closed ↦ rw (attempts_settled (t ∷ ts) e w closed) closed
    | inl waiting ↦
        let (results, got) = handle_event_calm t e w calm in
        let e' = conclude t e results in
        let settles = conclude-Settles t e results waiting in
        rw (attempts_pending t ts e w waiting) (
          rw got (elim (Status-cases e'.status) [
            | inr closed ↦ rw (attempts_settled ts e' _ closed) closed
            | inl again ↦
                attempts_settle ts e' _ (conclude-IsWellFormed t e results waiting wf)
                  (subst (λ ty. All NeverCancelled (handlers_for ty d)) (sym settles.same_event.1)
                    calm)
                  (omega (arith, retry_spent t e results waiting again))
          ]))
  ]

conclude-handler_state :
    (t : Readings) (e : OutboxEvent) (results : DispatchResult)
    → (conclude t e results).handler_state ≡ record_results t.recorded_at results e.handler_state
unfolding conclude
conclude-handler_state t e results = ground arith

-- What is kept of one name: its entry says "ok", in a state with distinct keys.
abbrev pub HasDone : Str → OutboxEvent → Type 0
HasDone n e = Unique e.handler_state × (is_done e.handler_state n ≡ true)

module _ {W : Type 0} (d : EventDispatcher W) (timeout : ℕ) (n : Str) where
  handle_event-HasDone :
      (t : Readings) (e : OutboxEvent) (w : W)
      → HasDone n e
      → HasDone n (committed e (handle_event d timeout t e w).0)
  unfolding handle_event
  handle_event-HasDone t e w done =
      elim (Option-cases
        (dispatch d timeout e.event_type e.payload (some (completed_names e.handler_state)) w).0) [
          | inl gone ↦ rw gone done
          | inr (results, got) ↦ rw got (
              rw (conclude-handler_state t e results) (
                record_results_done t.recorded_at n e.handler_state (handlers_for e.event_type d)
                  results done.0 done.1
                  (dispatch-AllReported d timeout e.event_type e.payload
                    (completed_names e.handler_state) w got)))
        ]

  handle_event-replace :
      (g : ℕ → Payload → W → Outcome × W) (t : Readings) (e : OutboxEvent) (w : W)
      → HasDone n e
      → handle_event (replace_handler n g d) timeout t e w ≡ handle_event d timeout t e w
  unfolding handle_event
  handle_event-replace g t e w done = rw (
      dispatch-replace n g d timeout e.event_type e.payload (completed_names e.handler_state) w
        done.1)

  -- A handler that succeeded once is never run again for the event: over any number of attempts, with
  -- failures and cancellations among them, its name stays done, and the event and the world end as
  -- they would with any other code under that name.
  pub attempts_at_most_once :
      (g : ℕ → Payload → W → Outcome × W) (ts : List Readings) (e : OutboxEvent) (w : W)
      → HasDone n e
      → (attempts (replace_handler n g d) timeout ts e w ≡ attempts d timeout ts e w)
        × HasDone n (attempts d timeout ts e w).0
  attempts_at_most_once g [] e w done = unfold attempts in (refl, done)
  attempts_at_most_once g (t ∷ ts) e w done = elim (Status-cases e.status) [
    | inr closed ↦
        rw
          (
            attempts_settled d timeout (t ∷ ts) e w closed,
            attempts_settled (replace_handler n g d) timeout (t ∷ ts) e w closed,
          )
          (refl, done)
    | inl waiting ↦
        rw
          (
            attempts_pending d timeout t ts e w waiting,
            attempts_pending (replace_handler n g d) timeout t ts e w waiting,
            handle_event-replace g t e w done,
          )
          (attempts_at_most_once g ts _ _ (handle_event-HasDone t e w done))
  ]
