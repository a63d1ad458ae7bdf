-- ===== src/Tests/Ingest.antt =====
-- The refresh of TLEs at concrete inputs.
use apsis.Prelude.{
  ℕ, ◌+◌, ℤ, pos, Str, codes, Instant, Option, none, some, List, [], ◌∷◌, map, ◌++◌, All, length,
  ◌≡◌, ◌≢◌, refl, ap, arith, int_of_str, signed, digits_from, int_eq, strip, lstrip, rstrip,
  rstrip_cons, is_space, str_eq,
}
use apsis.Events.Outbox.{OutboxEvent, pending, uuid_text, number}
use apsis.Celestrak.Types.{TleRecord, ok}
use apsis.Database.{first_where, set_where}
use apsis.Tracking.Models.{Satellite, Database, Server, done}
use apsis.Tracking.Repos.{get_by_norad_id, create_satellite, update_satellite, publish}
use apsis.Tracking.Ingest.{
  tle_norad_id, lines_differ, required, publish_refreshed, upsert, ingest_record, ingest_records,
  ingest,
}
use apsis.Tracking.Ingest.Refreshed.{AreStored, AreRefreshed, ingest-again, ingest-publishes}
use apsis.Tracking.Ingest.Total.{ingest-returns}
use apsis.Tracking.Ingest.Catalogue.{catalogue_of, take_in, announced_by, ingest-refines}

abbrev iss : TleRecord
iss = record { name = codes "ISS"; line1 = codes "1 25544U"; line2 = codes "2 25544" }

abbrev cube : TleRecord
cube = record { name = codes "CUBE"; line1 = codes "1   900U"; line2 = codes "2   900" }

abbrev pub server : Server
server = record { now = 1000; gen_random_uuid = λ k. k + 100 }

abbrev pub epoch_of : Str → Str → Option Instant
epoch_of line1 line2 = some 5

abbrev old_iss : Satellite
old_iss = record {
  id = 7;
  norad_id = pos 25544;
  name = codes "ISS";
  tle_line1 = codes "1 25544U";
  tle_line2 = codes "2 2554";
  epoch = 4;
  created_at = 3;
  updated_at = none;
}

abbrev pub before : Database ℕ ℕ
before = record {
  satellites = old_iss ∷ [];
  ground_stations = [];
  pass_predictions = [];
  outbox_events = [];
  generated = 0;
}

abbrev refreshed : ℕ → ℕ → ℕ → OutboxEvent
refreshed id satellite_id norad_id = record {
  id = id;
  aggregate_id = some satellite_id;
  correlation_id = none;
  event_type = codes "tle.refreshed";
  payload =
      (codes "satellite_id", uuid_text satellite_id)
      ∷ (codes "norad_id", number (pos norad_id))
      ∷ [];
  status = pending;
  retry_count = 0;
  max_retries = 8;
  scheduled_at = 1000;
  last_error = none;
  created_at = 1000;
  processed_at = none;
  handler_state = [];
}

abbrev after : Database ℕ ℕ
after = record before {
  satellites =
      record old_iss { tle_line2 = codes "2 25544"; epoch = 5; updated_at = some 1000 }
      ∷ record {
        id = 101;
        norad_id = pos 900;
        name = codes "CUBE";
        tle_line1 = codes "1   900U";
        tle_line2 = codes "2   900";
        epoch = 5;
        created_at = 1000;
        updated_at = none;
      }
      ∷ [];
  outbox_events = refreshed 100 7 25544 ∷ refreshed 102 101 900 ∷ [];
  generated = 3;
}

iss_number : tle_norad_id iss.line1 ≡ some (pos 25544)
unfolding tle_norad_id int_of_str signed digits_from strip lstrip rstrip rstrip_cons is_space
iss_number = refl

cube_number : tle_norad_id cube.line1 ≡ some (pos 900)
unfolding tle_norad_id int_of_str signed digits_from strip lstrip rstrip rstrip_cons is_space
cube_number = refl

two_changes : ingest server 8 epoch_of (ok (iss ∷ cube ∷ [])) before ≡ done (2, after)
unfolding ingest ingest_records ingest_record required upsert publish_refreshed publish
    create_satellite update_satellite lines_differ get_by_norad_id first_where set_where int_eq
    str_eq
two_changes = rw (iss_number, cube_number) refl

value_of : Option ℤ → ℕ
value_of (some (pos n)) = n
value_of _ = 0

own_numbers : tle_norad_id cube.line1 ≢ tle_norad_id iss.line1
unfolding value_of
own_numbers same =
    let as_numbers : value_of (tle_norad_id cube.line1) ≡ value_of (tle_norad_id iss.line1) =
      ap value_of same in
    let differ : value_of (some (pos 900)) ≡ value_of (some (pos 25544)) =
      rw (iss_number, cube_number) at as_numbers in
    absurd (omega arith)

ingest-again_example :
    AreStored (iss ∷ cube ∷ []) after.satellites
    × ((m : ℤ)
        → All (λ (r : TleRecord). tle_norad_id r.line1 ≢ some m) (iss ∷ cube ∷ [])
        → get_by_norad_id m after.satellites ≡ get_by_norad_id m before.satellites)
    × (ingest server 8 epoch_of (ok (iss ∷ cube ∷ [])) after ≡ done (0, after))
ingest-again_example =
    ingest-again server 8 epoch_of (iss ∷ cube ∷ []) before 2 after (tt, tt)
      ((own_numbers, tt), (tt, tt)) two_changes

ingest-publishes_example :
    (events : List OutboxEvent) × (after.outbox_events ≡ [] ++ events)
    × (length events ≡ 2)
    × AreRefreshed events after.satellites
ingest-publishes_example =
    ingest-publishes server 8 epoch_of (iss ∷ cube ∷ []) before 2 after (tt, tt) two_changes

ingest-returns_example :
    (n : ℕ) × (db : Database ℕ ℕ) × (ingest server 8 epoch_of (ok (iss ∷ cube ∷ [])) before
      ≡ done (n, db))
ingest-returns_example =
    ingest-returns server 8 epoch_of (iss ∷ cube ∷ []) before (λ i j same. omega arith)
      (
        record {
          norad_id = pos 25544;
          numbered = iss_number;
          epoch = 5;
          has_epoch = refl;
          short = refl;
        },
        (
          record {
            norad_id = pos 900;
            numbered = cube_number;
            epoch = 5;
            has_epoch = refl;
            short = refl;
          },
          tt,
        ),
      )
      (record {
        satellites = λ k later. ((λ same. absurd (omega arith)), tt);
        events = λ k later. tt;
      })

ingest-refines_example :
    (catalogue_of after.satellites ≡ (take_in (iss ∷ cube ∷ []) (catalogue_of before.satellites)).0)
    × ((events : List OutboxEvent) × (after.outbox_events ≡ [] ++ events)
        × (map announced_by events
            ≡ map some (take_in (iss ∷ cube ∷ []) (catalogue_of before.satellites)).1)
        × (2 ≡ length events))
ingest-refines_example =
    ingest-refines server 8 epoch_of (iss ∷ cube ∷ []) before 2 after (tt, tt) two_changes
