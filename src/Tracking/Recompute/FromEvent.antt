-- ===== src/Tracking/Recompute/FromEvent.antt =====
-- What the outbox worker does with a `tle.refreshed` event.
use apsis.Prelude.{
  ℕ, ◌+◌, Str, codes, lookup, insert, contains, Instant, Uuid, Bool, true, false, Option, none,
  some, List, [], ◌∷◌, keep, not, ◌==◌, All, inl, inr, length, Outcome, returned, ◌≡◌, ◌≢◌, refl,
  sym, ◌∙◌, ap, arith,
}
use apsis.Events.Outbox.{OutboxEvent, pending, processed, Payload, uuid_text}
use apsis.Events.Dispatcher.{
  Handler, HandlerResult, DispatchResult, ok_result, failed_result, all_succeeded, handlers_for,
  register, attempt, classify, run_handlers, dispatch,
}
use apsis.Events.Worker.{Readings, completed_names, conclude, handle_event}
use apsis.Events.Worker.Settle.{Settles, conclude-Settles}
use apsis.Database.{get_by_id}
use apsis.Database.Select.{IsKeyed}
use apsis.Tracking.Models.{Satellite, GroundStation, Database, Server, Failure, Attempt-cases, done}
use apsis.Tracking.Geometry.{Geoalchemy}
use apsis.Tracking.Passes.{SatellitePass, Skyfield}
use apsis.Tracking.Predict.{is_of_pair}
use apsis.Tracking.Predict.Loop.{HasFreshIds, AreRowsOf}
use apsis.Tracking.Recompute.{
  Cut, uncut, timed_out, cancelled_by, recompute_passes, handler_run, recompute_handler,
  registered_handler,
}
use apsis.Tracking.Recompute.Everywhere.{IsForeseen, recompute_passes-everywhere}

module _ {W : Type 0} (timeout : ℕ) (payload : Payload) (completed : List Str) (h : Handler W)
    (w w' : W) (result : HandlerResult) where
  alone_attempted :
      (o : Outcome)
      → contains completed h.name ≡ false
      → h.run timeout payload w ≡ (o, w')
      → classify h.name o ≡ some result
      → attempt timeout payload completed h w ≡ (some result, w')
  unfolding attempt
  alone_attempted o undone ran told = rw (undone, ran, told) refl

  alone :
      attempt timeout payload completed h w ≡ (some result, w')
      → run_handlers timeout payload completed (h ∷ []) [] w ≡ (some (result ∷ []), w')
  unfolding run_handlers
  alone tried =
      rw (tried, run_handlers)
        (ap (λ (r : Option HandlerResult × W). (some (result ∷ []), r.1)) tried)

raised_result : (n tb : Str) → classify n (Outcome.raised tb) ≡ some (failed_result n tb)
unfolding classify
raised_result n tb = refl

returned_result : (n : Str) → classify n returned ≡ some (ok_result n)
unfolding classify
returned_result n = refl

module _ (sky : Skyfield) (geo : Geoalchemy sky.Float) (horizon_hours : ℕ)
    (collates : Str → Str → Bool) (server : Server) (now : Instant) (cut : Cut)
    (format_exc : Failure → Str) where
  handlers-registered_handler :
      handlers_for
        (codes "tle.refreshed")
        (registered_handler sky geo horizon_hours collates server now cut format_exc)
      ≡ recompute_handler sky geo horizon_hours collates server now cut format_exc ∷ []
  unfolding handlers_for registered_handler register lookup insert apsis.Prelude.str_eq
  handlers-registered_handler = refl

  handled :
      (timeout : ℕ) (t : Readings) (event : OutboxEvent) (db db' : Database sky.Float geo.Wkb)
      (results : DispatchResult)
      → event.event_type ≡ codes "tle.refreshed"
      → run_handlers timeout event.payload
          (completed_names event.handler_state)
          (recompute_handler sky geo horizon_hours collates server now cut format_exc ∷ [])
          []
          db
        ≡ (some results, db')
      → handle_event
          (registered_handler sky geo horizon_hours collates server now cut format_exc)
          timeout
          t
          event
          db
        ≡ (some (conclude t event results), db')
  unfolding handle_event dispatch
  handled timeout t event db db' results kind ran =
      rw (kind, handlers-registered_handler, dispatch, ran) refl

  -- A run that raises leaves the tables.
  raised_keeps :
      (ending : Cut) (payload : Payload) (db : Database sky.Float geo.Wkb) (tb : Str)
      → (handler_run sky geo horizon_hours collates server now ending format_exc payload db).0
        ≡ Outcome.raised tb
      → handler_run sky geo horizon_hours collates server now ending format_exc payload db
        ≡ (Outcome.raised tb, db)
  unfolding handler_run
  raised_keeps (timed_out message) payload db tb h = ap (λ o. (o, db)) h
  raised_keeps cancelled_by payload db tb h = absurd (cc)
  raised_keeps uncut payload db tb h =
      elim (Attempt-cases (recompute_passes sky geo horizon_hours collates server now payload db)) [
        | inr (db', made) ↦ absurd (cc (rw (made, handler_run) at h))
        | inl (failure, broke) ↦
            let same : Outcome.raised (format_exc failure) ≡ Outcome.raised tb =
              rw (broke, handler_run) at h in
            rw (broke, handler_run) (ap (λ o. (o, db)) same)
      ]

  -- When the run of the handler for a pending event that has not done it yet raises, be it a failure of the
  -- recomputation or a timeout, the worker leaves the tables as they were and settles the event as one that
  -- failed: one more retry is counted, and it is dead if that was the last one, and otherwise pending and
  -- due between a second and an hour later.
  pub recompute_failure-retried :
      (timeout : ℕ) (t : Readings) (event : OutboxEvent) (db : Database sky.Float geo.Wkb)
      (tb : Str)
      → event.status ≡ pending
      → event.event_type ≡ codes "tle.refreshed"
      → contains (completed_names event.handler_state) (codes "recompute_passes") ≡ false
      → (handler_run sky geo horizon_hours collates server now cut format_exc event.payload db).0
        ≡ Outcome.raised tb
      → (event' : OutboxEvent) × (handle_event
            (registered_handler sky geo horizon_hours collates server now cut format_exc)
            timeout
            t
            event
            db
          ≡ (some event', db))
        × Settles t event false event'
  unfolding all_succeeded
  recompute_failure-retried timeout t event db tb waits kind undone h =
      let results = failed_result (codes "recompute_passes") tb ∷ [] in
      let run = recompute_handler sky geo horizon_hours collates server now cut format_exc in
      let completed = completed_names event.handler_state in
      let tried =
        alone_attempted timeout event.payload completed run db db
          (failed_result (codes "recompute_passes") tb) (Outcome.raised tb) undone
          (raised_keeps cut event.payload db tb h) (raised_result _ tb) in
      (
        conclude t event results,
        handled timeout t event db db results kind
            (alone timeout event.payload completed run db db _ tried),
        conclude-Settles t event results waits,
      )

  commits :
      (payload : Payload) (db db' : Database sky.Float geo.Wkb)
      → recompute_passes sky geo horizon_hours collates server now payload db ≡ done db'
      → handler_run sky geo horizon_hours collates server now uncut format_exc payload db
        ≡ (returned, db')
  unfolding handler_run
  commits payload db db' made = rw (made, handler_run) refl

  done_handled :
      (timeout : ℕ) (t : Readings) (event : OutboxEvent) (db db' : Database sky.Float geo.Wkb)
      → event.status ≡ pending
      → event.event_type ≡ codes "tle.refreshed"
      → contains (completed_names event.handler_state) (codes "recompute_passes") ≡ false
      → handler_run sky geo horizon_hours collates server now cut format_exc event.payload db
        ≡ (returned, db')
      → (event' : OutboxEvent) × (handle_event
            (registered_handler sky geo horizon_hours collates server now cut format_exc)
            timeout
            t
            event
            db
          ≡ (some event', db'))
        × Settles t event true event'
  unfolding all_succeeded
  done_handled timeout t event db db' waits kind undone ran =
      let results = ok_result (codes "recompute_passes") ∷ [] in
      let run = recompute_handler sky geo horizon_hours collates server now cut format_exc in
      let completed = completed_names event.handler_state in
      let tried =
        alone_attempted timeout event.payload completed run db db'
          (ok_result (codes "recompute_passes")) returned undone ran (returned_result _) in
      (
        conclude t event results,
        handled timeout t event db db' results kind
            (alone timeout event.payload completed run db db' _ tried),
        conclude-Settles t event results waits,
      )

-- When the worker handles a pending `tle.refreshed` event of a satellite that is there, whose handler
-- it has not done yet and whose run is not cut short, under the conditions of
-- recompute_passes-everywhere: the event becomes processed, and what is then predicted of the satellite
-- over each station is one row for each of its passes, in order, with its instants, elevation and track.
pub refreshed_event-everywhere :
    (sky : Skyfield) (geo : Geoalchemy sky.Float) (horizon_hours : ℕ) (collates : Str → Str → Bool)
    (server : Server) (now : Instant) (format_exc : Failure → Str) (timeout : ℕ) (t : Readings)
    (event : OutboxEvent) (satellite : Satellite) (db : Database sky.Float geo.Wkb)
    (passes : GroundStation sky.Float geo.Wkb → List (SatellitePass sky.Float))
    → event.status ≡ pending
    → event.event_type ≡ codes "tle.refreshed"
    → contains (completed_names event.handler_state) (codes "recompute_passes") ≡ false
    → lookup (codes "satellite_id") event.payload ≡ some (uuid_text satellite.id)
    → get_by_id (λ (s : Satellite). s.id) satellite.id db.satellites ≡ some satellite
    → IsKeyed (λ (g : GroundStation sky.Float geo.Wkb). g.id) db.ground_stations
    → All (IsForeseen sky geo horizon_hours server now satellite passes) db.ground_stations
    → ((i j : ℕ) → server.gen_random_uuid i ≡ server.gen_random_uuid j → i ≡ j)
    → HasFreshIds server db
    → (event' : OutboxEvent) × (db' : Database sky.Float geo.Wkb) × (handle_event
          (registered_handler sky geo horizon_hours collates server now uncut format_exc)
          timeout
          t
          event
          db
        ≡ (some event', db'))
      × (event'.status ≡ processed)
      × All
          (λ (g : GroundStation sky.Float geo.Wkb).
            AreRowsOf geo satellite.id g.id
              (passes g)
              (keep (is_of_pair satellite.id g.id) db'.pass_predictions))
          db.ground_stations
refreshed_event-everywhere sky geo horizon_hours collates server now format_exc timeout t event
      satellite db passes waits kind undone told there keyed foreseen never_again fresh =
    let (db', made, rows, _, _, _, _) =
      recompute_passes-everywhere sky geo horizon_hours collates server now event.payload satellite
        db passes told there keyed foreseen never_again fresh in
    let (event', handled_so, settled) =
      done_handled sky geo horizon_hours collates server now uncut format_exc timeout t event db db'
        waits kind undone
        (commits sky geo horizon_hours collates server now uncut format_exc event.payload db db'
          made) in
    (event', db', handled_so, settled.processed_iff.1 refl, rows)
