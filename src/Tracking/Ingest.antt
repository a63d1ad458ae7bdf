-- ===== src/Tracking/Ingest.antt =====
-- The refresh of the TLEs (app/tracking/use_cases/ingest_tles.py, the fields of a TLE of
-- services/propagation.py, and the job of app/core/jobs/handlers/tle_refresh.py).
pub mod Rows
pub mod Steps
pub mod Refreshed
pub mod Total
pub mod Catalogue
pub mod AsJob
use apsis.Prelude.{
  ℕ, ◌+◌, ℤ, int_of_str, Str, codes, str_eq, Instant, Uuid, Bool, true, false, not, ◌&&◌, ◌||◌,
  Option, none, some, List, [], ◌∷◌, ◌++◌, take, drop, if◌then◌else◌,
}
use apsis.Events.Outbox.{Payload, text, number, uuid_text}
use apsis.Celestrak.Types.{TleRecord, Result, ok, err, uncaught, CelestrakError, rate_limited}
use apsis.Tracking.Models.{
  Satellite, Database, Server, Failure, Attempt, done, raised, ◌>>=◌, celestrak, httpx, value_error,
}
use apsis.Tracking.Repos.{get_by_norad_id, create_satellite, update_satellite, publish}

-- `tle_norad_id`; `none` is the ValueError of `int`.
unfoldable pub tle_norad_id : Str → Option ℤ
unfolding int_of_str
tle_norad_id line1 = int_of_str (take 5 (drop 2 line1))

unfoldable pub lines_differ : Satellite → TleRecord → Bool
lines_differ existing r =
    not (str_eq existing.tle_line1 r.line1) || not (str_eq existing.tle_line2 r.line2)

-- `max_retries` is settings.OUTBOX_MAX_RETRIES; `tle_epoch` is skyfield's, where `none` is a
-- ValueError on lines that it cannot read.
unfoldable pub required : {A : Type 0} → Option A → Attempt A
required none = raised value_error
required (some value) = done value

-- The `except RateLimitedError` of the job.
unfoldable pub close_failed : Failure → Option Failure
close_failed (celestrak (rate_limited message)) = none
close_failed failure = some failure

module _ {Float Wkb : Type 0} (server : Server) (max_retries : ℕ) where
  unfoldable pub publish_refreshed :
      ℤ → Satellite × Database Float Wkb → Attempt (Bool × Database Float Wkb)
  unfolding publish
  publish_refreshed norad_id (satellite, db) = do
    (_, db') ←
        publish server max_retries (codes "tle.refreshed")
          ((codes "satellite_id", uuid_text satellite.id)
            ∷ (codes "norad_id", number norad_id)
            ∷ [])
          (some satellite.id) none db
    done (true, db')

module _ {Float Wkb : Type 0} (server : Server) (max_retries : ℕ)
    (tle_epoch : Str → Str → Option Instant) where
  -- The branches on the satellite that is there already; the flag tells whether it changed.
  unfoldable pub upsert :
      TleRecord → ℤ → Option Satellite → Database Float Wkb → Attempt (Bool × Database Float Wkb)
  unfolding required publish_refreshed create_satellite update_satellite lines_differ
  upsert r norad_id none db = do
    epoch ← required (tle_epoch r.line1 r.line2)
    created ← create_satellite server norad_id r.name r.line1 r.line2 epoch db
    publish_refreshed server max_retries norad_id created
  upsert r norad_id (some existing) db =
      if lines_differ existing r
      then (required (tle_epoch r.line1 r.line2) >>= λ epoch.
          update_satellite server existing r.name r.line1 r.line2 epoch db
          >>= publish_refreshed server max_retries norad_id)
      else done (false, db)

  unfoldable pub ingest_record :
      TleRecord → Database Float Wkb → Attempt (Bool × Database Float Wkb)
  unfolding required tle_norad_id upsert get_by_norad_id
  ingest_record r db = do
    norad_id ← required (tle_norad_id r.line1)
    upsert r norad_id (get_by_norad_id norad_id db.satellites) db

  -- The loop, with the number of changed satellites so far.
  unfoldable pub ingest_records :
      List TleRecord → ℕ → Database Float Wkb → Attempt (ℕ × Database Float Wkb)
  unfolding ingest_record
  ingest_records [] changed db = done (changed, db)
  ingest_records (r ∷ rs) changed db = do
    (is_changed, db') ← ingest_record r db
    ingest_records rs (if is_changed then changed + 1 else changed) db'

  -- `IngestTlesUseCase.execute`, by what the client's `fetch_group` ends with.
  unfoldable pub ingest :
      Result (List TleRecord) → Database Float Wkb → Attempt (ℕ × Database Float Wkb)
  unfolding ingest_records
  ingest (err e) db = raised (celestrak e)
  ingest (uncaught x) db = raised (httpx x)
  ingest (ok records) db = ingest_records records 0 db

  -- `tle_refresh`: what the job raises, and the tables once its session is closed.
  unfoldable pub tle_refresh :
      Result (List TleRecord) → Database Float Wkb → Option Failure × Database Float Wkb
  unfolding ingest close_failed
  tle_refresh fetched db = elim (ingest fetched db) [
    | done (changed, db') ↦ (none, db')
    | raised failure ↦ (close_failed failure, db)
  ]
