-- ===== src/Tracking/Recompute.antt =====
-- The handler of `tle.refreshed` (app/tracking/event_handlers/recompute_passes.py).
pub mod Everywhere
pub mod FromEvent
use apsis.Prelude.{
  ℕ, ◌+◌, ◌*◌, second, Str, codes, Dict, lookup, Instant, Uuid, Bool, true, false, Option, none,
  some, List, [], ◌∷◌, Outcome, returned, cancelled, if◌then◌else◌,
}
use apsis.Events.Outbox.{Payload, Json, text, number, uuid_text}
use apsis.Events.Dispatcher.{Handler, EventDispatcher, register}
use apsis.Tracking.Models.{
  GroundStation, Database, Server, Failure, Attempt, done, raised, ◌>>=◌, key_error, value_error,
  attribute_error,
}
use apsis.Tracking.Geometry.{Geoalchemy}
use apsis.Tracking.Passes.{Datetime, Skyfield, aware_at}
use apsis.Tracking.Stations.{list_ground_stations}
use apsis.Tracking.Predict.{execute}

-- `uuid.UUID(payload["satellite_id"])`: a text that is no UUID is a ValueError, a number an
-- AttributeError.
unfoldable pub satellite_id_of : Payload → Attempt Uuid
unfolding lookup
satellite_id_of payload = elim (lookup (codes "satellite_id") payload) [
  | none ↦ raised key_error
  | some (text s) ↦ raised value_error
  | some (number n) ↦ raised attribute_error
  | some (uuid_text i) ↦ done i
]

-- The end of the window: `now + timedelta(hours=settings.PASS_PREDICTION_HORIZON_HOURS)`.
abbrev pub window_end : (horizon_hours : ℕ) → Instant → Datetime
window_end horizon_hours now = aware_at (now + horizon_hours * 3600 * second)

module _ (sky : Skyfield) (geo : Geoalchemy sky.Float) (horizon_hours : ℕ) where
  -- The loop over the stations, with the defaults of `execute`.
  unfoldable pub execute_each :
      Server
      → (now : Instant) → (satellite_id : Uuid) → List (GroundStation sky.Float geo.Wkb)
      → Database sky.Float geo.Wkb
      → Attempt (Database sky.Float geo.Wkb)
  unfolding execute
  execute_each server now satellite_id [] db = done db
  execute_each server now satellite_id (station ∷ stations) db =
      execute sky geo server satellite_id station.id (aware_at now) (window_end horizon_hours now)
        (sky.degrees 10) 24 db
      >>= λ result. execute_each server now satellite_id stations result.1

-- What the runtime does to a run of the handler: it lets it end by itself, or ends it before its
-- commit, by the timeout of `wait_for` (with the traceback that the dispatcher formats) or by a
-- cancellation.
pub data Cut : Type 0 where
  uncut : Cut
  timed_out : (traceback : Str) → Cut
  cancelled_by : Cut

module _ (sky : Skyfield) (geo : Geoalchemy sky.Float) (horizon_hours : ℕ)
    (collates : Str → Str → Bool) where
  -- The handler's own session, up to its commit.
  unfoldable pub recompute_passes :
      Server
      → (now : Instant) → Payload
      → Database sky.Float geo.Wkb
      → Attempt (Database sky.Float geo.Wkb)
  unfolding satellite_id_of execute_each list_ground_stations
  recompute_passes server now payload db = satellite_id_of payload >>= λ satellite_id.
      execute_each sky geo horizon_hours server now satellite_id
        (list_ground_stations collates db.ground_stations) db

  -- As the dispatcher runs it; without the commit the tables stay.
  unfoldable pub handler_run :
      Server
      → (now : Instant) → Cut
      → (format_exc : Failure → Str) → Payload
      → Database sky.Float geo.Wkb
      → Outcome × Database sky.Float geo.Wkb
  unfolding recompute_passes
  handler_run server now (timed_out traceback) format_exc payload db =
      (Outcome.raised traceback, db)
  handler_run server now cancelled_by format_exc payload db = (cancelled, db)
  handler_run server now uncut format_exc payload db =
      elim (recompute_passes server now payload db) [
        | done db' ↦ (returned, db')
        | raised failure ↦ (Outcome.raised (format_exc failure), db)
      ]

  abbrev pub recompute_handler :
      Server → Instant → Cut → (Failure → Str) → Handler (Database sky.Float geo.Wkb)
  recompute_handler server now cut format_exc = record {
    name = codes "recompute_passes";
    run = λ timeout payload db. handler_run server now cut format_exc payload db;
  }

  -- `@dispatcher.register("tle.refreshed")`
  unfoldable pub registered_handler :
      Server → Instant → Cut → (Failure → Str) → EventDispatcher (Database sky.Float geo.Wkb)
  unfolding register
  registered_handler server now cut format_exc =
      register (codes "tle.refreshed") (recompute_handler server now cut format_exc) []
