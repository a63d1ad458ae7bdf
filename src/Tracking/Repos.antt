-- ===== src/Tracking/Repos.antt =====
-- The repositories (app/tracking/repos, app/core/repo.py) and the event bus (app/core/events/bus.py)
-- on the tables.
use apsis.Prelude.{
  ℕ, ◌+◌, ℤ, int_eq, Str, Instant, Uuid, Bool, not, ◌||◌, Option, none, some, List, [], ◌∷◌, ◌++◌,
  any, length, leb, ◌==◌, if◌then◌else◌,
}
use apsis.Events.Outbox.{OutboxEvent, Payload, pending}
use apsis.Database.{first_where, set_where}
use apsis.Tracking.Models.{
  Satellite, Database, Server, Attempt, done, raised, data_error, integrity_error,
}

-- What VARCHAR(255) holds.
abbrev pub fits : Str → Bool
fits s = leb (length s) 255

-- PostgreSQL has no text with the character U+0000 and refuses it as the parameter of a statement.
abbrev pub is_storable : Str → Bool
is_storable s = not (any (λ c. c == 0) s)

-- `SatelliteRepo.get_by_norad_id`
unfoldable pub get_by_norad_id : ℤ → List Satellite → Option Satellite
unfolding first_where
get_by_norad_id norad_id rows = first_where (λ s. int_eq s.norad_id norad_id) rows

module _ {Float Wkb : Type 0} (server : Server) where
  -- `BaseRepo.create` of a satellite: the INSERT with its UNIQUE constraints, and the row that is
  -- read back.
  unfoldable pub create_satellite :
      (norad_id : ℤ) (name tle_line1 tle_line2 : Str) (epoch : Instant)
      → Database Float Wkb
      → Attempt (Satellite × Database Float Wkb)
  create_satellite norad_id name tle_line1 tle_line2 epoch db =
      let id = server.gen_random_uuid db.generated in
      let row : Satellite = record {
        id = id;
        norad_id = norad_id;
        name = name;
        tle_line1 = tle_line1;
        tle_line2 = tle_line2;
        epoch = epoch;
        created_at = server.now;
        updated_at = none;
      } in
      if not (fits name)
      then raised data_error
      else if any (λ (s : Satellite). s.id == id || int_eq s.norad_id norad_id) db.satellites
      then raised integrity_error
      else done
          (row, record db { satellites = db.satellites ++ row ∷ []; generated = db.generated + 1 })

  -- `BaseRepo.update` of a satellite with its name, lines and epoch: UPDATE by its primary key.
  unfoldable pub update_satellite :
      Satellite
      → (name tle_line1 tle_line2 : Str) (epoch : Instant) → Database Float Wkb
      → Attempt (Satellite × Database Float Wkb)
  unfolding set_where
  update_satellite entity name tle_line1 tle_line2 epoch db =
      let changed : Satellite → Satellite = λ s. record s {
        name = name;
        tle_line1 = tle_line1;
        tle_line2 = tle_line2;
        epoch = epoch;
        updated_at = some server.now;
      } in
      if not (fits name)
      then raised data_error
      else done (
        changed entity,
        record db { satellites = set_where (λ s. s.id == entity.id) changed db.satellites },
      )

  -- `EventBus.publish`; the notification that it sends carries no state.
  unfoldable pub publish :
      (max_retries : ℕ)
      → Str
      → Payload
      → (aggregate_id correlation_id : Option Uuid) → Database Float Wkb
      → Attempt (OutboxEvent × Database Float Wkb)
  publish max_retries event_type payload aggregate_id correlation_id db =
      let id = server.gen_random_uuid db.generated in
      let event : OutboxEvent = record {
        id = id;
        aggregate_id = aggregate_id;
        correlation_id = correlation_id;
        event_type = event_type;
        payload = payload;
        status = pending;
        retry_count = 0;
        max_retries = max_retries;
        scheduled_at = server.now;
        last_error = none;
        created_at = server.now;
        processed_at = none;
        handler_state = [];
      } in
      if not (fits event_type)
      then raised data_error
      else if any (λ (e : OutboxEvent). e.id == id) db.outbox_events
      then raised integrity_error
      else done (
        event,
        record db { outbox_events = db.outbox_events ++ event ∷ []; generated = db.generated + 1 },
      )
