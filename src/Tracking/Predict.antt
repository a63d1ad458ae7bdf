-- ===== src/Tracking/Predict.antt =====
-- The recomputation of the passes of a satellite over a station
-- (app/tracking/use_cases/compute_passes.py).

pub mod Loop
pub mod Replaced
pub mod Converges
use apsis.Prelude.{
  ℕ, ◌+◌, Str, codes, Instant, Uuid, Bool, true, false, not, ◌&&◌, ◌||◌, Option, none, some, List,
  [], ◌∷◌, ◌++◌, any, length, is_some, ◌==◌, if◌then◌else◌,
}
use apsis.Database.{get_by_id, delete_where}
use apsis.Tracking.Models.{
  Satellite, GroundStation, PassPrediction, Database, Server, Failure, Attempt, done, raised, ◌>>=◌,
  not_found, value_error, integrity_error, attribute_error,
}
use apsis.Tracking.Geometry.{Geoalchemy, linestring_to_wkb, wkb_to_lonlat}
use apsis.Tracking.Passes.{Datetime, ObserverSite, SatellitePass, Skyfield, Checked}
use apsis.Tracking.Passes

unfoldable pub is_of_pair :
    {Float Wkb : Type 0} → (satellite_id ground_station_id : Uuid) → PassPrediction Float Wkb → Bool
is_of_pair satellite_id ground_station_id p =
    p.satellite_id == satellite_id && p.ground_station_id == ground_station_id

-- `PassPredictionRepo.delete_for_satellite_and_station`
unfoldable pub delete_for_satellite_and_station :
    {Float Wkb : Type 0}
    → (satellite_id ground_station_id : Uuid) → Database Float Wkb
    → Database Float Wkb
unfolding delete_where is_of_pair
delete_for_satellite_and_station satellite_id ground_station_id db = record db {
  pass_predictions = delete_where (is_of_pair satellite_id ground_station_id) db.pass_predictions;
}

-- `BaseRepo.create` of a prediction, with its keys: the primary one, the unique one and the foreign
-- ones.
unfoldable pub create_prediction :
    {Float Wkb : Type 0}
    → Server
    → (satellite_id ground_station_id : Uuid) → SatellitePass Float
    → Wkb
    → Database Float Wkb
    → Attempt (Database Float Wkb)
unfolding get_by_id is_of_pair
create_prediction {Float} {Wkb} server satellite_id ground_station_id sat_pass track db =
    let id = server.gen_random_uuid db.generated in
    let row : PassPrediction Float Wkb = record {
      id = id;
      satellite_id = satellite_id;
      ground_station_id = ground_station_id;
      aos_at = sat_pass.aos_at;
      los_at = sat_pass.los_at;
      peak_at = sat_pass.peak_at;
      peak_elevation_deg = sat_pass.peak_elevation_deg;
      track = track;
      created_at = server.now;
      updated_at = none;
    } in
    let is_taken : PassPrediction Float Wkb → Bool = λ p.
      p.id == id || (is_of_pair satellite_id ground_station_id p && p.aos_at == sat_pass.aos_at) in
    let has_owners =
      is_some (get_by_id (λ (s : Satellite). s.id) satellite_id db.satellites)
      && is_some (
          get_by_id (λ (g : GroundStation Float Wkb). g.id) ground_station_id db.ground_stations) in
    if any is_taken db.pass_predictions || not has_owners
    then raised integrity_error
    else done (record db {
      pass_predictions = db.pass_predictions ++ row ∷ [];
      generated = db.generated + 1;
    })

module _ (sky : Skyfield) (geo : Geoalchemy sky.Float) (server : Server) where
  -- The loop over the predicted passes.
  unfoldable pub create_predictions :
      (satellite_id ground_station_id : Uuid)
      → List (SatellitePass sky.Float)
      → Database sky.Float geo.Wkb
      → Attempt (Database sky.Float geo.Wkb)
  unfolding linestring_to_wkb create_prediction
  create_predictions satellite_id ground_station_id [] db = done db
  create_predictions satellite_id ground_station_id (sat_pass ∷ predicted) db =
      linestring_to_wkb geo sat_pass.ground_track >>= λ track.
      create_prediction server satellite_id ground_station_id sat_pass track db >>= λ db'.
      create_predictions satellite_id ground_station_id predicted db'

  unfoldable pub predicted_of :
      Checked (List (SatellitePass sky.Float)) → Attempt (List (SatellitePass sky.Float))
  predicted_of (Checked.ok predicted) = done predicted
  predicted_of (Checked.raise e) = raised value_error

  -- What follows the SELECTs of `execute`.
  unfoldable pub replace_passes :
      (satellite_id ground_station_id : Uuid)
      → Satellite
      → GroundStation sky.Float geo.Wkb
      → (start end : Datetime) → (min_elevation_deg : sky.Float) → (track_samples : ℕ)
      → (longitude latitude : sky.Float) → Database sky.Float geo.Wkb
      → Attempt (ℕ × Database sky.Float geo.Wkb)
  unfolding predicted_of delete_for_satellite_and_station create_predictions
  replace_passes satellite_id ground_station_id satellite station start end min_elevation_deg
        track_samples longitude latitude db =
      predicted_of (
        Passes.compute_passes sky satellite.tle_line1 satellite.tle_line2
          (record { latitude = latitude; longitude = longitude; elevation_m = station.altitude_m })
          start end min_elevation_deg track_samples)
      >>= λ predicted.
          create_predictions satellite_id ground_station_id predicted
            (delete_for_satellite_and_station satellite_id ground_station_id db)
          >>= λ db'. done (length predicted, db')

  -- `ComputePassesUseCase.execute`
  unfoldable pub execute :
      (satellite_id ground_station_id : Uuid)
      → (start end : Datetime) → (min_elevation_deg : sky.Float) → (track_samples : ℕ)
      → Database sky.Float geo.Wkb
      → Attempt (ℕ × Database sky.Float geo.Wkb)
  unfolding get_by_id wkb_to_lonlat replace_passes
  execute satellite_id ground_station_id start end min_elevation_deg track_samples db =
      elim (get_by_id (λ (s : Satellite). s.id) satellite_id db.satellites) [
        | none ↦ raised (not_found (codes "Satellite") satellite_id)
        | some satellite ↦
            elim (get_by_id (λ (g : GroundStation sky.Float geo.Wkb). g.id) ground_station_id
              db.ground_stations) [
                | none ↦ raised (not_found (codes "GroundStation") ground_station_id)
                | some station ↦ elim (wkb_to_lonlat geo station.location) [
                  | none ↦ raised attribute_error
                  | some lonlat ↦
                      replace_passes satellite_id ground_station_id satellite station start end
                        min_elevation_deg track_samples lonlat.0 lonlat.1 db
                ]
              ]
      ]
