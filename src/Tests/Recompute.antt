-- ===== src/Tests/Recompute.antt =====
-- The handler of a refreshed orbit at a concrete input: one station, whose old prediction is replaced.
use apsis.Prelude.{
  ℕ, ◌+◌, ◌≤◌, ◌≢◌, pos, Str, codes, contains, lookup, Outcome, none, some, Bool, true, false, List,
  [], ◌∷◌, ◌≡◌, refl, All, keep, not, ◌==◌, arith,
}
use apsis.Events.Outbox.{OutboxEvent, Payload, pending, processed, uuid_text, number}
use apsis.Events.Worker.{Readings, completed_names, handle_event}
use apsis.Events.Worker.Settle.{Settles}
use apsis.Tracking.Models.{Failure, GroundStation, PassPrediction, Database, done}
use apsis.Tracking.Passes.{
  SatellitePass, Checked, aware_at, compute_passes, collect_passes, build_pass, subpoints,
  sample_instants, samples_from, set_last, sample_at, divide_and_round,
}
use apsis.Tracking.Geometry.{Shape, wkb_to_lonlat, lonlat_of}
use apsis.Tracking.Predict.{is_of_pair}
use apsis.Tracking.Predict.Loop.{AreRowsOf}
use apsis.Tracking.Recompute.{
  uncut, timed_out, recompute_passes, handler_run, registered_handler, window_end,
}
use apsis.Tracking.Recompute.Everywhere.{IsForeseen, recompute_passes-everywhere}
use apsis.Tracking.Recompute.FromEvent.{recompute_failure-retried, refreshed_event-everywhere}
use apsis.Tests.Predict.{sky, geo, server, iss, madrid, before, iss_there}

abbrev by_code : Str → Str → Bool
by_code a b = true

abbrev told_payload : Payload
told_payload = (codes "satellite_id", uuid_text 7) ∷ (codes "norad_id", number (pos 25544)) ∷ []

abbrev told_event : OutboxEvent
told_event = record {
  id = 40;
  aggregate_id = some 7;
  correlation_id = none;
  event_type = codes "tle.refreshed";
  payload = told_payload;
  status = pending;
  retry_count = 0;
  max_retries = 8;
  scheduled_at = 5;
  last_error = none;
  created_at = 5;
  processed_at = none;
  handler_state = [];
}

abbrev readings : Readings
readings = record { recorded_at = 20; settled_at = 30; jitter = 2 }

abbrev format_exc : Failure → Str
format_exc failure = codes "Traceback"

told_id : lookup (codes "satellite_id") told_payload ≡ some (uuid_text 7)
unfolding lookup apsis.Prelude.str_eq
told_id = refl

abbrev passes_of : Checked (List (SatellitePass ℕ)) → List (SatellitePass ℕ)
passes_of (Checked.ok ps) = ps
passes_of (Checked.raise e) = []

abbrev passes : GroundStation ℕ (Shape ℕ) → List (SatellitePass ℕ)
passes g = passes_of (
    compute_passes sky iss.tle_line1 iss.tle_line2
      (record { latitude = 40; longitude = 3; elevation_m = 600 }) (aware_at 1) (window_end 48 1) 10
      24)

madrid-IsForeseen : IsForeseen sky geo 48 server 1 iss passes madrid
unfolding compute_passes collect_passes build_pass subpoints sample_instants samples_from set_last
    sample_at divide_and_round wkb_to_lonlat lonlat_of
madrid-IsForeseen = record {
  longitude = 3;
  latitude = 40;
  located = refl;
  found = refl;
  differ = (tt, tt);
  tracks = (omega arith, tt);
}

fresh_ids :
    (k : ℕ)
    → before.generated ≤ k
    → All
        (λ (p : PassPrediction ℕ (Shape ℕ)). p.id ≢ server.gen_random_uuid k)
        before.pass_predictions
fresh_ids k later = ((λ same. absurd (omega arith)), ((λ same. absurd (omega arith)), tt))

recompute_passes-everywhere_example :
    (db' : Database ℕ (Shape ℕ)) × (recompute_passes sky geo 48 by_code server 1 told_payload before
      ≡ done db')
    × All
        (λ (g : GroundStation ℕ (Shape ℕ)).
          AreRowsOf geo iss.id g.id (passes g) (keep (is_of_pair iss.id g.id) db'.pass_predictions))
        before.ground_stations
    × (keep
          (λ (p : PassPrediction ℕ (Shape ℕ)). not (p.satellite_id == iss.id))
          db'.pass_predictions
        ≡ keep
            (λ (p : PassPrediction ℕ (Shape ℕ)). not (p.satellite_id == iss.id))
            before.pass_predictions)
    × (db'.satellites ≡ before.satellites)
    × (db'.ground_stations ≡ before.ground_stations)
    × (db'.outbox_events ≡ before.outbox_events)
recompute_passes-everywhere_example =
    recompute_passes-everywhere sky geo 48 by_code server 1 told_payload iss before passes told_id
      iss_there (tt, tt) (madrid-IsForeseen, tt) (λ i j same. omega arith) fresh_ids

not_yet : contains (completed_names told_event.handler_state) (codes "recompute_passes") ≡ false
unfolding completed_names contains
not_yet = refl

times_out :
    (handler_run sky geo 48 by_code server 1
      (timed_out (codes "TimeoutError"))
      format_exc
      told_payload
      before).0
    ≡ Outcome.raised (codes "TimeoutError")
unfolding handler_run
times_out = refl

recompute_failure-retried_example :
    (event' : OutboxEvent) × (handle_event
        (registered_handler sky geo 48 by_code server 1
          (timed_out (codes "TimeoutError"))
          format_exc)
        30
        readings
        told_event
        before
      ≡ (some event', before))
    × Settles readings told_event false event'
recompute_failure-retried_example =
    recompute_failure-retried sky geo 48 by_code server 1 (timed_out (codes "TimeoutError"))
      format_exc 30 readings told_event before (codes "TimeoutError") refl refl not_yet times_out

refreshed_event-everywhere_example :
    (event' : OutboxEvent) × (db' : Database ℕ (Shape ℕ)) × (handle_event
        (registered_handler sky geo 48 by_code server 1 uncut format_exc)
        30
        readings
        told_event
        before
      ≡ (some event', db'))
    × (event'.status ≡ processed)
    × All
        (λ (g : GroundStation ℕ (Shape ℕ)).
          AreRowsOf geo iss.id g.id (passes g) (keep (is_of_pair iss.id g.id) db'.pass_predictions))
        before.ground_stations
refreshed_event-everywhere_example =
    refreshed_event-everywhere sky geo 48 by_code server 1 format_exc 30 readings told_event iss
      before passes refl refl not_yet told_id iss_there (tt, tt) (madrid-IsForeseen, tt)
      (λ i j same. omega arith) fresh_ids
