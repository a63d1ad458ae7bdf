-- ===== src/Tracking/Ingest/Total.antt =====
-- When a refresh returns.
use apsis.Prelude.{
  codes, ℕ, ◌+◌, ◌≤◌, ℤ, int_eq, Str, Instant, Bool, true, false, Option, none, some, List, [], ◌∷◌,
  ◌++◌, All, ◌==◌, if◌then◌else◌, Bool-cases, Option-cases, inl, inr, ◌≡◌, ◌≢◌, refl, arith,
}
use apsis.Events.Outbox.{OutboxEvent, pending, uuid_text, number}
use apsis.Database.{set_where}
use apsis.Celestrak.Types.{TleRecord, ok}
use apsis.Database.Select.{append_new, set_where_new, no_key, no_id}
use apsis.Tracking.Models.{Satellite, Database, Server, done}
use apsis.Tracking.Repos.{get_by_norad_id, create_satellite, update_satellite, publish, fits}
use apsis.Tracking.Ingest.{
  tle_norad_id, lines_differ, required, upsert, publish_refreshed, ingest_record, ingest_records,
  ingest,
}

module _ {Float Wkb : Type 0} (server : Server) where
  -- The UUIDs to come are no row's key.
  pub record IsFresh (db : Database Float Wkb) : Type 0 where
    pub satellites :
        (k : ℕ)
        → db.generated ≤ k
        → All (λ (s : Satellite). s.id ≢ server.gen_random_uuid k) db.satellites
    pub events :
        (k : ℕ)
        → db.generated ≤ k
        → All (λ (e : OutboxEvent). e.id ≢ server.gen_random_uuid k) db.outbox_events

-- What the code asks of a record.
pub record IsReadable (tle_epoch : Str → Str → Option Instant) (r : TleRecord) : Type 0 where
  pub norad_id : ℤ
  pub numbered : tle_norad_id r.line1 ≡ some norad_id
  pub epoch : Instant
  pub has_epoch : tle_epoch r.line1 r.line2 ≡ some epoch
  pub short : fits r.name ≡ true

module _ {Float Wkb : Type 0} (server : Server) (max_retries : ℕ)
    (never_again : (i j : ℕ) → server.gen_random_uuid i ≡ server.gen_random_uuid j → i ≡ j) where
  create-IsFresh :
      (n : ℤ) (name line1 line2 : Str) (epoch : Instant) (db : Database Float Wkb)
      → fits name ≡ true
      → IsFresh server db
      → get_by_norad_id n db.satellites ≡ none
      → (s : Satellite) × (db' : Database Float Wkb) × (create_satellite server n name line1 line2
            epoch db
          ≡ done (s, db'))
        × IsFresh server db'
  unfolding create_satellite get_by_norad_id
  create-IsFresh n name line1 line2 epoch db short fresh missing =
      let id = server.gen_random_uuid db.generated in
      let free =
        no_key (λ (s : Satellite). s.id) id (λ s. int_eq s.norad_id n) db.satellites
          (fresh.satellites db.generated (omega arith)) missing in
      let row : Satellite = record {
        id = id;
        norad_id = n;
        name = name;
        tle_line1 = line1;
        tle_line2 = line2;
        epoch = epoch;
        created_at = server.now;
        updated_at = none;
      } in
      (
        row,
        record db { satellites = db.satellites ++ row ∷ []; generated = db.generated + 1 },
        rw (short, free) refl,
        record {
          satellites = λ k later.
              append_new (λ (s : Satellite). s.id) (server.gen_random_uuid k) db.satellites row
                (fresh.satellites k (omega arith))
                (λ same. absurd (omega (arith, never_again db.generated k same)));
          events = λ k later. fresh.events k (omega arith);
        },
      )

  publish-IsFresh :
      (n : ℤ) (s : Satellite) (db : Database Float Wkb)
      → IsFresh server db
      → (db' : Database Float Wkb) × (publish_refreshed server max_retries n (s, db)
          ≡ done (true, db'))
        × IsFresh server db'
  unfolding publish_refreshed publish
  publish-IsFresh n s db fresh =
      let id = server.gen_random_uuid db.generated in
      let free =
        no_id (λ (e : OutboxEvent). e.id) id db.outbox_events
          (fresh.events db.generated (omega arith)) in
      let event : OutboxEvent = record {
        id = id;
        aggregate_id = some s.id;
        correlation_id = none;
        event_type = codes "tle.refreshed";
        payload = (codes "satellite_id", uuid_text s.id) ∷ (codes "norad_id", number n) ∷ [];
        status = pending;
        retry_count = 0;
        max_retries = max_retries;
        scheduled_at = server.now;
        last_error = none;
        created_at = server.now;
        processed_at = none;
        handler_state = [];
      } in
      (
        record db { outbox_events = db.outbox_events ++ event ∷ []; generated = db.generated + 1 },
        rw free refl,
        record {
          satellites = λ k later. fresh.satellites k (omega arith);
          events = λ k later.
              append_new (λ (e : OutboxEvent). e.id) (server.gen_random_uuid k) db.outbox_events
                event (fresh.events k (omega arith))
                (λ same. absurd (omega (arith, never_again db.generated k same)));
        },
      )

  update-IsFresh :
      (e : Satellite) (name line1 line2 : Str) (epoch : Instant) (db : Database Float Wkb)
      → fits name ≡ true
      → IsFresh server db
      → (s : Satellite) × (db' : Database Float Wkb) × (update_satellite server e name line1 line2
            epoch db
          ≡ done (s, db'))
        × IsFresh server db'
  unfolding update_satellite
  update-IsFresh e name line1 line2 epoch db short fresh =
      let changed : Satellite → Satellite = λ t. record t {
        name = name;
        tle_line1 = line1;
        tle_line2 = line2;
        epoch = epoch;
        updated_at = some server.now;
      } in
      (
        changed e,
        record db { satellites = set_where (λ t. t.id == e.id) changed db.satellites },
        rw short refl,
        record {
          satellites = λ k later.
              set_where_new (λ (t : Satellite). t.id) (λ t. t.id == e.id) changed (λ t. refl)
                (server.gen_random_uuid k) db.satellites (fresh.satellites k later);
          events = fresh.events;
        },
      )

  module _ (tle_epoch : Str → Str → Option Instant) where
    turn-IsFresh :
        (r : TleRecord) (db : Database Float Wkb)
        → IsReadable tle_epoch r
        → IsFresh server db
        → (changed : Bool) × (db' : Database Float Wkb) × (ingest_record server max_retries
              tle_epoch r db
            ≡ done (changed, db'))
          × IsFresh server db'
    unfolding ingest_record upsert required
    turn-IsFresh r db readable fresh =
        elim (Option-cases (get_by_norad_id readable.norad_id db.satellites)) [
          | inl missing ↦
              let (s, db1, created, fresh1) =
                create-IsFresh readable.norad_id r.name r.line1 r.line2 readable.epoch db
                  readable.short fresh missing in
              let (db2, published, fresh2) = publish-IsFresh readable.norad_id s db1 fresh1 in
              (
                true,
                db2,
                rw (readable.numbered, missing, readable.has_epoch, created) published,
                fresh2,
              )
          | inr (e, there) ↦ elim (Bool-cases (lines_differ e r)) [
            | inl differ ↦
                let (s, db1, updated, fresh1) =
                  update-IsFresh e r.name r.line1 r.line2 readable.epoch db readable.short fresh in
                let (db2, published, fresh2) = publish-IsFresh readable.norad_id s db1 fresh1 in
                (
                  true,
                  db2,
                  rw (readable.numbered, there, differ, readable.has_epoch, updated) published,
                  fresh2,
                )
            | inr same ↦ (false, db, rw (readable.numbered, there, same) refl, fresh)
          ]
        ]

    run_returns :
        (rs : List TleRecord) (k : ℕ) (db : Database Float Wkb)
        → All (IsReadable tle_epoch) rs
        → IsFresh server db
        → (n : ℕ) × (db' : Database Float Wkb) × (ingest_records server max_retries tle_epoch rs k
              db
            ≡ done (n, db'))
    unfolding ingest_records
    run_returns [] k db readable fresh = (k, db, refl)
    run_returns (r ∷ rs) k db readable fresh =
        let (changed, db1, went, fresh1) = turn-IsFresh r db readable.0 fresh in
        let (n, db', rest) = run_returns rs (if changed then k + 1 else k) db1 readable.1 fresh1 in
        (n, db', rw went rest)

-- A refresh returns if the server never generates a UUID twice or one that stands in the tables,
-- and each record has a catalog number that `int` reads, lines that skyfield reads, and a name of
-- at most 255 characters, whatever the tables hold and even if records share a number.
pub ingest-returns :
    {Float Wkb : Type 0} (server : Server) (max_retries : ℕ)
    (tle_epoch : Str → Str → Option Instant) (rs : List TleRecord) (db : Database Float Wkb)
    → ((i j : ℕ) → server.gen_random_uuid i ≡ server.gen_random_uuid j → i ≡ j)
    → All (IsReadable tle_epoch) rs
    → IsFresh server db
    → (n : ℕ) × (db' : Database Float Wkb) × (ingest server max_retries tle_epoch (ok rs) db
        ≡ done (n, db'))
unfolding ingest
ingest-returns server max_retries tle_epoch rs db never_again readable fresh =
    run_returns server max_retries never_again tle_epoch rs 0 db readable fresh
