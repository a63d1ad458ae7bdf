-- ===== src/Tracking/Predict/Replaced.antt =====
-- What a recomputation leaves in the table of predictions.
use apsis.Prelude.{ℕ, ◌≤◌, Uuid, some, List, ◌++◌, All, length, ◌≡◌, ◌≢◌, refl}
use apsis.Database.{get_by_id, delete_where}
use apsis.Database.Select.{All-delete_where}
use apsis.Tracking.Models.{Satellite, GroundStation, PassPrediction, Database, Server, done}
use apsis.Tracking.Geometry.{Geoalchemy, wkb_to_lonlat}
use apsis.Tracking.Passes.{Datetime, ObserverSite, SatellitePass, Skyfield, Checked}
use apsis.Tracking.Passes
use apsis.Tracking.Predict.Loop.{AosDiffer, HasFreshIds, AreRowsOf, add, is_some_of, after_delete}
use apsis.Tracking.Predict.{
  is_of_pair, delete_for_satellite_and_station, create_predictions, predicted_of, replace_passes,
  execute,
}

-- `execute` once its SELECTs, its predictions and its loop have gone well.
execute_goes :
    (sky : Skyfield) (geo : Geoalchemy sky.Float) (server : Server)
    (satellite_id ground_station_id : Uuid) (start end : Datetime) (min_elevation_deg : sky.Float)
    (n : ℕ) (db db' : Database sky.Float geo.Wkb) {satellite : Satellite}
    {station : GroundStation sky.Float geo.Wkb} {longitude latitude : sky.Float}
    {predicted : List (SatellitePass sky.Float)}
    → get_by_id (λ (s : Satellite). s.id) satellite_id db.satellites ≡ some satellite
    → get_by_id (λ (g : GroundStation sky.Float geo.Wkb). g.id) ground_station_id db.ground_stations
      ≡ some station
    → wkb_to_lonlat geo station.location ≡ some (longitude, latitude)
    → Passes.compute_passes sky satellite.tle_line1 satellite.tle_line2
        (record { latitude = latitude; longitude = longitude; elevation_m = station.altitude_m })
        start
        end
        min_elevation_deg
        n
      ≡ Checked.ok predicted
    → create_predictions sky geo server satellite_id ground_station_id predicted
        (delete_for_satellite_and_station satellite_id ground_station_id db)
      ≡ done db'
    → execute sky geo server satellite_id ground_station_id start end min_elevation_deg n db
      ≡ done (length predicted, db')
unfolding execute replace_passes predicted_of
execute_goes sky geo server satellite_id ground_station_id start end min n db db' there here located
      found made =
    rw (there, here, located, found, made, execute, replace_passes, predicted_of) refl

module _ (sky : Skyfield) (geo : Geoalchemy sky.Float) (server : Server)
    (satellite_id ground_station_id : Uuid) (start end : Datetime) (min_elevation_deg : sky.Float)
    (n : ℕ) where
  -- What a recomputation that returns has done.
  pub record Recomputed (db : Database sky.Float geo.Wkb)
      (predicted : List (SatellitePass sky.Float)) : Type 0 where
    pub new : List (PassPrediction sky.Float geo.Wkb)
    pub db' : Database sky.Float geo.Wkb
    pub made :
        execute sky geo server satellite_id ground_station_id start end min_elevation_deg n db
        ≡ done (length predicted, db')
    pub rows :
        db'.pass_predictions
        ≡ delete_where (is_of_pair satellite_id ground_station_id) db.pass_predictions ++ new
    pub fits : AreRowsOf geo satellite_id ground_station_id predicted new
    pub satellites : db'.satellites ≡ db.satellites
    pub stations : db'.ground_stations ≡ db.ground_stations
    pub events : db'.outbox_events ≡ db.outbox_events
    pub fresh : HasFreshIds server db'

  pub execute-Recomputed :
      (db : Database sky.Float geo.Wkb) (satellite : Satellite)
      (station : GroundStation sky.Float geo.Wkb) (longitude latitude : sky.Float)
      (predicted : List (SatellitePass sky.Float))
      → ((i j : ℕ) → server.gen_random_uuid i ≡ server.gen_random_uuid j → i ≡ j)
      → HasFreshIds server db
      → get_by_id (λ (s : Satellite). s.id) satellite_id db.satellites ≡ some satellite
      → get_by_id
          (λ (g : GroundStation sky.Float geo.Wkb). g.id)
          ground_station_id
          db.ground_stations
        ≡ some station
      → wkb_to_lonlat geo station.location ≡ some (longitude, latitude)
      → Passes.compute_passes sky satellite.tle_line1 satellite.tle_line2
          (record { latitude = latitude; longitude = longitude; elevation_m = station.altitude_m })
          start
          end
          min_elevation_deg
          n
        ≡ Checked.ok predicted
      → AosDiffer predicted
      → All (λ (p : SatellitePass sky.Float). 2 ≤ length p.ground_track) predicted
      → Recomputed db predicted
  unfolding delete_for_satellite_and_station
  execute-Recomputed db satellite station longitude latitude predicted never_again fresh there here
        located found differ tracks =
      let cleared = delete_for_satellite_and_station satellite_id ground_station_id db in
      let a =
        add sky geo server satellite_id ground_station_id never_again predicted cleared
          (λ k later.
            All-delete_where
              (λ (p : PassPrediction sky.Float geo.Wkb). p.id ≢ server.gen_random_uuid k)
              (is_of_pair satellite_id ground_station_id) db.pass_predictions (fresh k later))
          (is_some_of there, is_some_of here) differ tracks
          (after_delete satellite_id ground_station_id predicted db.pass_predictions) in
      record {
        new = a.new;
        db' = a.db';
        made =
            execute_goes sky geo server satellite_id ground_station_id start end min_elevation_deg n
              db a.db' there here located found a.made;
        rows = a.rows;
        fits = a.fits;
        satellites = a.satellites;
        stations = a.stations;
        events = a.events;
        fresh = a.fresh;
      }

-- For a satellite and a station that are there, a station located by a point, passes that
-- compute_passes finds, that begin at different instants and have tracks of two points at least, and
-- UUIDs that are never generated twice nor stand in the table: `execute` returns the number of passes;
-- it takes away the predictions of this satellite over this station and no others, and adds behind
-- them one for each pass, in order, with its instants, elevation and track. The other tables stay.
pub execute-Replaces :
    (sky : Skyfield) (geo : Geoalchemy sky.Float) (server : Server)
    (satellite_id ground_station_id : Uuid) (start end : Datetime) (min_elevation_deg : sky.Float)
    (n : ℕ) (db : Database sky.Float geo.Wkb) (satellite : Satellite)
    (station : GroundStation sky.Float geo.Wkb) (longitude latitude : sky.Float)
    (predicted : List (SatellitePass sky.Float))
    → ((i j : ℕ) → server.gen_random_uuid i ≡ server.gen_random_uuid j → i ≡ j)
    → HasFreshIds server db
    → get_by_id (λ (s : Satellite). s.id) satellite_id db.satellites ≡ some satellite
    → get_by_id (λ (g : GroundStation sky.Float geo.Wkb). g.id) ground_station_id db.ground_stations
      ≡ some station
    → wkb_to_lonlat geo station.location ≡ some (longitude, latitude)
    → Passes.compute_passes sky satellite.tle_line1 satellite.tle_line2
        (record { latitude = latitude; longitude = longitude; elevation_m = station.altitude_m })
        start
        end
        min_elevation_deg
        n
      ≡ Checked.ok predicted
    → AosDiffer predicted
    → All (λ (p : SatellitePass sky.Float). 2 ≤ length p.ground_track) predicted
    → (new : List (PassPrediction sky.Float geo.Wkb)) × (db' : Database sky.Float geo.Wkb)
      × (execute sky geo server satellite_id ground_station_id start end min_elevation_deg n db
          ≡ done (length predicted, db'))
      × (db'.pass_predictions
          ≡ delete_where (is_of_pair satellite_id ground_station_id) db.pass_predictions ++ new)
      × AreRowsOf geo satellite_id ground_station_id predicted new
      × (db'.satellites ≡ db.satellites)
      × (db'.ground_stations ≡ db.ground_stations)
      × (db'.outbox_events ≡ db.outbox_events)
execute-Replaces sky geo server satellite_id ground_station_id start end min n db satellite station
      longitude latitude predicted never_again fresh there here located found differ tracks =
    let r =
      execute-Recomputed sky geo server satellite_id ground_station_id start end min n db satellite
        station longitude latitude predicted never_again fresh there here located found differ
        tracks in
    (r.new, r.db', r.made, r.rows, r.fits, r.satellites, r.stations, r.events)
