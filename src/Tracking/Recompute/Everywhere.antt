-- ===== src/Tracking/Recompute/Everywhere.antt =====
-- What a recomputation over all stations leaves for each of them.
use mathlib.Core.List.{append-nil}
use apsis.Prelude.{
  ℕ, Str, codes, lookup, Instant, Uuid, Bool, true, false, not, some, List, [], ◌∷◌, All, keep,
  length, ◌≤◌, ◌==◌, ◌≡◌, ◌≢◌, refl, ◌∙◌, ap, arith,
}
use apsis.Events.Outbox.{Payload, uuid_text}
use apsis.Database.{get_by_id, order_by, delete_where}
use apsis.Database.Pages.{order_by-All}
use apsis.Database.Select.{IsKeyed}
use apsis.Database.Keyed.{order_by-IsKeyed, get_by_id-IsKeyed, All-order_by}
use apsis.Database.Visible.{keep-append, keep-deleted, keep-own, keep-others, keep-not_deleted}
use apsis.Tracking.Models.{Satellite, GroundStation, PassPrediction, Database, Server, done}
use apsis.Tracking.Geometry.{Geoalchemy, wkb_to_lonlat}
use apsis.Tracking.Passes.{Datetime, SatellitePass, Skyfield, Checked, aware_at}
use apsis.Tracking.Passes
use apsis.Tracking.Stations.{list_ground_stations}
use apsis.Tracking.Predict.{is_of_pair}
use apsis.Tracking.Predict.Loop.{AosDiffer, HasFreshIds, AreRowsOf}
use apsis.Tracking.Predict.Converges.{AreRowsOf-pair}
use apsis.Tracking.Predict.Replaced.{execute-Recomputed}
use apsis.Tracking.Recompute.{window_end, satellite_id_of, execute_each, recompute_passes}

module _ (sky : Skyfield) (geo : Geoalchemy sky.Float) (horizon_hours : ℕ) (server : Server)
    (now : Instant) (satellite : Satellite)
    (passes : GroundStation sky.Float geo.Wkb → List (SatellitePass sky.Float)) where
  -- The passes of a station that is located by a point, as compute_passes finds them.
  pub record IsForeseen (g : GroundStation sky.Float geo.Wkb) : Type 0 where
    pub longitude : sky.Float
    pub latitude : sky.Float
    pub located : wkb_to_lonlat geo g.location ≡ some (longitude, latitude)
    pub found :
        Passes.compute_passes sky satellite.tle_line1 satellite.tle_line2
          (record { latitude = latitude; longitude = longitude; elevation_m = g.altitude_m })
          (aware_at now)
          (window_end horizon_hours now)
          (sky.degrees 10)
          24
        ≡ Checked.ok (passes g)
    pub differ : AosDiffer (passes g)
    pub tracks : All (λ (p : SatellitePass sky.Float). 2 ≤ length p.ground_track) (passes g)

  -- What the loop over some stations leaves.
  record Everywhere (db : Database sky.Float geo.Wkb)
      (stations : List (GroundStation sky.Float geo.Wkb)) : Type 0 where
    pub db' : Database sky.Float geo.Wkb
    pub made : execute_each sky geo horizon_hours server now satellite.id stations db ≡ done db'
    pub own :
        All
          (λ (g : GroundStation sky.Float geo.Wkb).
            AreRowsOf geo satellite.id g.id
              (passes g)
              (keep (is_of_pair satellite.id g.id) db'.pass_predictions))
          stations
    pub others :
        (q : PassPrediction sky.Float geo.Wkb → Bool)
        → All
            (λ (g : GroundStation sky.Float geo.Wkb).
              (p : PassPrediction sky.Float geo.Wkb)
              → is_of_pair satellite.id g.id p ≡ true
              → q p ≡ false)
            stations
        → keep q db'.pass_predictions ≡ keep q db.pass_predictions
    pub satellites : db'.satellites ≡ db.satellites
    pub stations_stay : db'.ground_stations ≡ db.ground_stations
    pub events : db'.outbox_events ≡ db.outbox_events

  other_pair :
      (g h : GroundStation sky.Float geo.Wkb) (p : PassPrediction sky.Float geo.Wkb)
      → g.id ≢ h.id
      → is_of_pair satellite.id h.id p ≡ true
      → is_of_pair satellite.id g.id p ≡ false
  unfolding is_of_pair
  other_pair g h p differ is_of = ground (arith, differ)

  apart_from :
      (g : GroundStation sky.Float geo.Wkb) (stations : List (GroundStation sky.Float geo.Wkb))
      → All (λ (h : GroundStation sky.Float geo.Wkb). g.id ≢ h.id) stations
      → All
          (λ (h : GroundStation sky.Float geo.Wkb).
            (p : PassPrediction sky.Float geo.Wkb)
            → is_of_pair satellite.id h.id p ≡ true
            → is_of_pair satellite.id g.id p ≡ false)
          stations
  apart_from g [] h = tt
  apart_from g (x ∷ xs) h = ((λ p is_of. other_pair g x p h.0 is_of), apart_from g xs h.1)

  module _ (never_again : (i j : ℕ) → server.gen_random_uuid i ≡ server.gen_random_uuid j → i ≡ j)
      (rows : List (GroundStation sky.Float geo.Wkb)) where
    all_of :
        (db : Database sky.Float geo.Wkb) (stations : List (GroundStation sky.Float geo.Wkb))
        → HasFreshIds server db
        → get_by_id (λ (s : Satellite). s.id) satellite.id db.satellites ≡ some satellite
        → db.ground_stations ≡ rows
        → IsKeyed (λ (g : GroundStation sky.Float geo.Wkb). g.id) stations
        → All
            (λ (g : GroundStation sky.Float geo.Wkb).
              get_by_id (λ (h : GroundStation sky.Float geo.Wkb). h.id) g.id rows ≡ some g)
            stations
        → All IsForeseen stations
        → Everywhere db stations
    unfolding execute_each
    all_of db [] fresh there same keyed here foreseen = record {
      db' = db;
      made = refl;
      own = tt;
      others = λ q apart. refl;
      satellites = refl;
      stations_stay = refl;
      events = refl;
    }
    all_of db (g ∷ stations) fresh there same keyed here foreseen =
        let f = foreseen.0 in
        let is_this = is_of_pair satellite.id g.id in
        let r =
          execute-Recomputed sky geo server satellite.id g.id (aware_at now)
            (window_end horizon_hours now) (sky.degrees 10) 24 db satellite g f.longitude f.latitude
            (passes g) never_again fresh there (rw same here.0) f.located f.found f.differ
            f.tracks in
        let rest =
          all_of r.db' stations r.fresh (rw r.satellites there) (r.stations ∙ same) keyed.1 here.1
            foreseen.1 in
        let new_is = AreRowsOf-pair geo satellite.id g.id (passes g) r.new r.fits in
        let left : keep is_this r.db'.pass_predictions ≡ r.new =
          ap (keep is_this) r.rows
          ∙ keep-append is_this (delete_where is_this db.pass_predictions) r.new
          ∙ rw (keep-deleted is_this db.pass_predictions) (keep-own is_this r.new new_is) in
        let stays = rest.others is_this (apart_from g stations keyed.0) in
        record {
          db' = rest.db';
          made = rw r.made rest.made;
          own = (rw (stays ∙ left) r.fits, rest.own);
          others = λ q apart.
              rest.others q apart.1
              ∙ ap (keep q) r.rows
              ∙ keep-append q (delete_where is_this db.pass_predictions) r.new
              ∙ rw
                  (
                    keep-not_deleted is_this q db.pass_predictions apart.0,
                    keep-others is_this q r.new apart.0 new_is,
                  )
                  (append-nil _);
          satellites = rest.satellites ∙ r.satellites;
          stations_stay = rest.stations_stay ∙ r.stations;
          events = rest.events ∙ r.events;
        }

not_others :
    {Float Wkb : Type 0} (satellite_id : Uuid) (stations : List (GroundStation Float Wkb))
    → All
        (λ (g : GroundStation Float Wkb).
          (p : PassPrediction Float Wkb)
          → is_of_pair satellite_id g.id p ≡ true
          → not (p.satellite_id == satellite_id) ≡ false)
        stations
unfolding is_of_pair
not_others satellite_id [] = tt
not_others satellite_id (g ∷ stations) =
    ((λ p is_of. ground arith), not_others satellite_id stations)

recompute_passes_goes :
    (sky : Skyfield) (geo : Geoalchemy sky.Float) (horizon_hours : ℕ) (collates : Str → Str → Bool)
    (server : Server) (now : Instant) (payload : Payload) (i : Uuid)
    (db db' : Database sky.Float geo.Wkb)
    → lookup (codes "satellite_id") payload ≡ some (uuid_text i)
    → execute_each sky geo horizon_hours server now i
        (list_ground_stations collates db.ground_stations)
        db
      ≡ done db'
    → recompute_passes sky geo horizon_hours collates server now payload db ≡ done db'
unfolding recompute_passes satellite_id_of
recompute_passes_goes sky geo horizon_hours collates server now payload i db db' told went =
    rw (told, recompute_passes, satellite_id_of, went) refl

-- For a payload with the id of a satellite that is there, a table of stations without two of one id,
-- each of them located by a point and with passes that compute_passes finds in the window, that begin
-- at different instants and have tracks of two points at least, and UUIDs that are never generated
-- twice nor stand in the table: the handler commits, and then what is predicted of the satellite over
-- each station is one row for each of its passes, in order, with its instants, elevation and track.
-- The predictions of other satellites and the other tables stay.
pub recompute_passes-everywhere :
    (sky : Skyfield) (geo : Geoalchemy sky.Float) (horizon_hours : ℕ) (collates : Str → Str → Bool)
    (server : Server) (now : Instant) (payload : Payload) (satellite : Satellite)
    (db : Database sky.Float geo.Wkb)
    (passes : GroundStation sky.Float geo.Wkb → List (SatellitePass sky.Float))
    → lookup (codes "satellite_id") payload ≡ some (uuid_text satellite.id)
    → get_by_id (λ (s : Satellite). s.id) satellite.id db.satellites ≡ some satellite
    → IsKeyed (λ (g : GroundStation sky.Float geo.Wkb). g.id) db.ground_stations
    → All (IsForeseen sky geo horizon_hours server now satellite passes) db.ground_stations
    → ((i j : ℕ) → server.gen_random_uuid i ≡ server.gen_random_uuid j → i ≡ j)
    → HasFreshIds server db
    → (db' : Database sky.Float geo.Wkb) × (recompute_passes sky geo horizon_hours collates server
          now payload db
        ≡ done db')
      × All
          (λ (g : GroundStation sky.Float geo.Wkb).
            AreRowsOf geo satellite.id g.id
              (passes g)
              (keep (is_of_pair satellite.id g.id) db'.pass_predictions))
          db.ground_stations
      × (keep
            (λ (p : PassPrediction sky.Float geo.Wkb). not (p.satellite_id == satellite.id))
            db'.pass_predictions
          ≡ keep
              (λ (p : PassPrediction sky.Float geo.Wkb). not (p.satellite_id == satellite.id))
              db.pass_predictions)
      × (db'.satellites ≡ db.satellites)
      × (db'.ground_stations ≡ db.ground_stations)
      × (db'.outbox_events ≡ db.outbox_events)
unfolding list_ground_stations
recompute_passes-everywhere sky geo horizon_hours collates server now payload satellite db passes
      told there keyed foreseen never_again fresh =
    let before = λ (g h : GroundStation sky.Float geo.Wkb). collates g.name h.name in
    let id_of = λ (g : GroundStation sky.Float geo.Wkb). g.id in
    let rows = db.ground_stations in
    let all =
      all_of sky geo horizon_hours server now satellite passes never_again rows db
        (order_by before rows) fresh there refl (order_by-IsKeyed id_of before rows keyed)
        (order_by-All before (λ g. get_by_id id_of g.id rows ≡ some g) rows
          (get_by_id-IsKeyed id_of rows keyed))
        (order_by-All before (IsForeseen sky geo horizon_hours server now satellite passes) rows
          foreseen) in
    (
      all.db',
      recompute_passes_goes sky geo horizon_hours collates server now payload satellite.id db
          all.db' told all.made,
      All-order_by
          (λ g.
            AreRowsOf geo satellite.id g.id (passes g)
              (keep (is_of_pair satellite.id g.id) all.db'.pass_predictions))
          before rows all.own,
      all.others (λ p. not (p.satellite_id == satellite.id))
          (not_others satellite.id (order_by before rows)),
      all.satellites,
      all.stations_stay,
      all.events,
    )
