-- ===== src/Tracking/Ingest/Rows.antt =====
-- What the refresh of one record does to the satellites that SELECTs find.
use mathlib.Core.Path.{subst}
use apsis.Prelude.{
  codes, ℕ, ℤ, int_eq, Str, Instant, Uuid, Bool, true, ◌||◌, none, some, [], ◌∷◌, ◌++◌, All, any,
  ◌==◌, Bool-cases, inl, inr, ◌≡◌, ◌≢◌, refl,
}
use apsis.Events.Outbox.{OutboxEvent, pending, uuid_text, number}
use apsis.Database.{set_where}
use apsis.Database.Select.{first_where-any, any_key}
use apsis.Tracking.Models.{Satellite, Database, Server, done}
use apsis.Tracking.Repos.{get_by_norad_id, create_satellite, update_satellite, publish, fits}
use apsis.Tracking.Ingest.{publish_refreshed}

pub done_inj {ℓ} : {A : Type ℓ} {a b : A} → done a ≡ done b → a ≡ b
done_inj h = cc

-- A pending event that tells of a satellite.
pub record IsRefreshed (norad_id : ℤ) (satellite_id : Uuid) (event : OutboxEvent) : Type 0 where
  pub status : event.status ≡ pending
  pub event_type : event.event_type ≡ codes "tle.refreshed"
  pub aggregate : event.aggregate_id ≡ some satellite_id
  pub payload :
      event.payload
      ≡ (codes "satellite_id", uuid_text satellite_id) ∷ (codes "norad_id", number norad_id) ∷ []

module _ {Float Wkb : Type 0} where
  -- What a creation that returns has done.
  pub record IsCreated (norad_id : ℤ) (db : Database Float Wkb) (s : Satellite)
      (db' : Database Float Wkb) : Type 0 where
    pub number : s.norad_id ≡ norad_id
    pub rows : db'.satellites ≡ db.satellites ++ s ∷ []
    pub new : All (λ (t : Satellite). t.id ≢ s.id) db.satellites
    pub no_such : get_by_norad_id norad_id db.satellites ≡ none
    pub events : db'.outbox_events ≡ db.outbox_events

  -- What an update that returns has done.
  pub record IsUpdated (entity : Satellite) (db : Database Float Wkb) (s : Satellite)
      (db' : Database Float Wkb) : Type 0 where
    pub changed : Satellite → Satellite
    pub row : s ≡ changed entity
    pub keeps_id : (t : Satellite) → (changed t).id ≡ t.id
    pub keeps_number : (t : Satellite) → (changed t).norad_id ≡ t.norad_id
    pub rows : db'.satellites ≡ set_where (λ t. t.id == entity.id) changed db.satellites
    pub events : db'.outbox_events ≡ db.outbox_events

  -- What a publication that returns has done.
  pub record IsPublished (norad_id : ℤ) (s : Satellite) (db : Database Float Wkb) (changed : Bool)
      (db' : Database Float Wkb) : Type 0 where
    pub event : OutboxEvent
    pub rows : db'.satellites ≡ db.satellites
    pub events : db'.outbox_events ≡ db.outbox_events ++ event ∷ []
    pub refreshed : IsRefreshed norad_id s.id event
    pub flag : changed ≡ true

-- The two statements that write a satellite, by the rows after them.
module _ {Float Wkb : Type 0} (server : Server) where
  pub create_satellite-IsCreated :
      (norad_id : ℤ) (name line1 line2 : Str) (epoch : Instant) (db : Database Float Wkb)
      {s : Satellite} {db' : Database Float Wkb}
      → create_satellite server norad_id name line1 line2 epoch db ≡ done (s, db')
      → IsCreated norad_id db s db' × (s.tle_line1 ≡ line1) × (s.tle_line2 ≡ line2)
  unfolding create_satellite get_by_norad_id
  create_satellite-IsCreated norad_id name line1 line2 epoch db {s} {db'} h =
      let id = server.gen_random_uuid db.generated in
      let taken = any (λ (t : Satellite). t.id == id || int_eq t.norad_id norad_id) db.satellites in
      elim (Bool-cases (fits name)) [
        | inr long ↦ absurd (cc (rw (long, create_satellite) at h))
        | inl short ↦ elim (Bool-cases taken) [
          | inl clash ↦ absurd (cc (rw (short, clash, create_satellite) at h))
          | inr free ↦
              let (new, no_such) =
                any_key (λ (t : Satellite). t.id) id (λ t. int_eq t.norad_id norad_id) db.satellites
                  free in
              subst
                (λ (r : Satellite × Database Float Wkb).
                  IsCreated norad_id db r.0 r.1 × (r.0.tle_line1 ≡ line1) × (r.0.tle_line2 ≡ line2))
                (done_inj (rw (short, free, create_satellite) at h))
                (
                  record {
                    number = refl;
                    rows = refl;
                    new = new;
                    no_such =
                        first_where-any (λ (t : Satellite). int_eq t.norad_id norad_id)
                          db.satellites no_such;
                    events = refl;
                  },
                  refl,
                  refl,
                )
        ]
      ]

  pub update_satellite-IsUpdated :
      (entity : Satellite) (name line1 line2 : Str) (epoch : Instant) (db : Database Float Wkb)
      {s : Satellite} {db' : Database Float Wkb}
      → update_satellite server entity name line1 line2 epoch db ≡ done (s, db')
      → IsUpdated entity db s db' × (s.tle_line1 ≡ line1) × (s.tle_line2 ≡ line2)
  unfolding update_satellite
  update_satellite-IsUpdated entity name line1 line2 epoch db {s} {db'} h =
      elim (Bool-cases (fits name)) [
        | inr long ↦ absurd (cc (rw (long, update_satellite) at h))
        | inl short ↦
            subst
              (λ (r : Satellite × Database Float Wkb).
                IsUpdated entity db r.0 r.1 × (r.0.tle_line1 ≡ line1) × (r.0.tle_line2 ≡ line2))
              (done_inj (rw (short, update_satellite) at h))
              (
                record {
                  changed = λ t. record t {
                    name = name;
                    tle_line1 = line1;
                    tle_line2 = line2;
                    epoch = epoch;
                    updated_at = some server.now;
                  };
                  row = refl;
                  keeps_id = λ t. refl;
                  keeps_number = λ t. refl;
                  rows = refl;
                  events = refl;
                },
                refl,
                refl,
              )
      ]

module _ {Float Wkb : Type 0} (server : Server) (max_retries : ℕ) where
  pub publish_refreshed-IsPublished :
      (norad_id : ℤ) (s : Satellite) (db : Database Float Wkb) {changed : Bool}
      {db' : Database Float Wkb}
      → publish_refreshed server max_retries norad_id (s, db) ≡ done (changed, db')
      → IsPublished norad_id s db changed db'
  unfolding publish_refreshed publish
  publish_refreshed-IsPublished norad_id s db {changed} {db'} h =
      let id = server.gen_random_uuid db.generated in
      elim (Bool-cases (any (λ (e : OutboxEvent). e.id == id) db.outbox_events)) [
        | inl clash ↦ absurd (cc (rw (clash, publish_refreshed, publish) at h))
        | inr free ↦
            subst (λ (r : Bool × Database Float Wkb). IsPublished norad_id s db r.0 r.1)
              (done_inj (rw (free, publish_refreshed, publish) at h))
              (record {
                event = record {
                  id = id;
                  aggregate_id = some s.id;
                  correlation_id = none;
                  event_type = codes "tle.refreshed";
                  payload =
                      (codes "satellite_id", uuid_text s.id)
                      ∷ (codes "norad_id", number norad_id)
                      ∷ [];
                  status = pending;
                  retry_count = 0;
                  max_retries = max_retries;
                  scheduled_at = server.now;
                  last_error = none;
                  created_at = server.now;
                  processed_at = none;
                  handler_state = [];
                };
                rows = refl;
                events = refl;
                refreshed = record {
                  status = refl;
                  event_type = refl;
                  aggregate = refl;
                  payload = refl;
                };
                flag = refl;
              })
      ]
