-- ===== src/Tracking/Predict/Converges.antt =====
-- What a second recomputation of the same passes does.
use apsis.Prelude.{
  ℕ, ◌≤◌, Uuid, Bool, true, some, List, [], ◌∷◌, ◌++◌, All, length, ==_refl, Bool-cases, inl, inr,
  ◌≡◌, refl, sym, ◌∙◌, ap,
}
use apsis.Database.{get_by_id, delete_where}
use apsis.Tracking.Models.{Satellite, GroundStation, PassPrediction, Database, Server, done}
use apsis.Tracking.Geometry.{Geoalchemy, wkb_to_lonlat}
use apsis.Tracking.Passes.{Datetime, SatellitePass, Skyfield, Checked}
use apsis.Tracking.Passes
use apsis.Tracking.Predict.{is_of_pair, execute}
use apsis.Tracking.Predict.Loop.{AosDiffer, HasFreshIds, AreRowsOf}
use apsis.Tracking.Predict.Replaced.{execute-Replaces}

-- A DELETE takes away what it has to, and a second one nothing more.
delete_where-delete_where :
    {A : Type 0} (p : A → Bool) (xs new : List A)
    → All (λ x. p x ≡ true) new
    → delete_where p (delete_where p xs ++ new) ≡ delete_where p xs
unfolding delete_where
delete_where-delete_where p [] [] all_of = refl
delete_where-delete_where p [] (x ∷ new) all_of =
    rw all_of.0 (delete_where-delete_where p [] new all_of.1)
delete_where-delete_where p (x ∷ xs) new all_of = elim (Bool-cases (p x)) [
  | inl holds ↦ rw holds (delete_where-delete_where p xs new all_of)
  | inr fails ↦ rw (fails, fails) (ap (λ ys. x ∷ ys) (delete_where-delete_where p xs new all_of))
]

pub AreRowsOf-pair :
    {Float : Type 0} (geo : Geoalchemy Float) (satellite_id ground_station_id : Uuid)
    (ps : List (SatellitePass Float)) (new : List (PassPrediction Float geo.Wkb))
    → AreRowsOf geo satellite_id ground_station_id ps new
    → All
        (λ (p : PassPrediction Float geo.Wkb). is_of_pair satellite_id ground_station_id p ≡ true)
        new
unfolding is_of_pair
AreRowsOf-pair geo satellite_id ground_station_id [] [] h = tt
AreRowsOf-pair geo satellite_id ground_station_id [] (row ∷ new) h = absurd h
AreRowsOf-pair geo satellite_id ground_station_id (p ∷ ps) [] h = absurd h
AreRowsOf-pair geo satellite_id ground_station_id (p ∷ ps) (row ∷ new) h = (
  rw (h.0.satellite, h.0.station, ==_refl satellite_id, ==_refl ground_station_id) refl,
  AreRowsOf-pair geo satellite_id ground_station_id ps new h.1,
)

second_inj : {A B : Type 0} {r r' : A × B} → done r ≡ done r' → r.1 ≡ r'.1
second_inj {A} {B} {r} {r'} h = let same : r ≡ r' = cc in ap (λ (x : A × B). x.1) same

-- A second recomputation of the same passes converges: in the table that the first one has left,
-- under the conditions of execute-Replaces for both, `execute` returns the same number, and
-- the predictions are those of other pairs that stood there before the first one, and behind them
-- again one row for each pass, with its instants, elevation and track.
pub execute-again :
    (sky : Skyfield) (geo : Geoalchemy sky.Float) (server server' : Server)
    (satellite_id ground_station_id : Uuid) (start end : Datetime) (min_elevation_deg : sky.Float)
    (n : ℕ) (db db' : Database sky.Float geo.Wkb) (satellite : Satellite)
    (station : GroundStation sky.Float geo.Wkb) (longitude latitude : sky.Float)
    (predicted : List (SatellitePass sky.Float))
    → ((i j : ℕ) → server.gen_random_uuid i ≡ server.gen_random_uuid j → i ≡ j)
    → ((i j : ℕ) → server'.gen_random_uuid i ≡ server'.gen_random_uuid j → i ≡ j)
    → HasFreshIds server db
    → HasFreshIds server' db'
    → get_by_id (λ (s : Satellite). s.id) satellite_id db.satellites ≡ some satellite
    → get_by_id (λ (g : GroundStation sky.Float geo.Wkb). g.id) ground_station_id db.ground_stations
      ≡ some station
    → wkb_to_lonlat geo station.location ≡ some (longitude, latitude)
    → Passes.compute_passes sky satellite.tle_line1 satellite.tle_line2
        (record { latitude = latitude; longitude = longitude; elevation_m = station.altitude_m })
        start
        end
        min_elevation_deg
        n
      ≡ Checked.ok predicted
    → AosDiffer predicted
    → All (λ (p : SatellitePass sky.Float). 2 ≤ length p.ground_track) predicted
    → execute sky geo server satellite_id ground_station_id start end min_elevation_deg n db
      ≡ done (length predicted, db')
    → (new : List (PassPrediction sky.Float geo.Wkb)) × (db'' : Database sky.Float geo.Wkb)
      × (execute sky geo server' satellite_id ground_station_id start end min_elevation_deg n db'
          ≡ done (length predicted, db''))
      × (db''.pass_predictions
          ≡ delete_where (is_of_pair satellite_id ground_station_id) db.pass_predictions ++ new)
      × AreRowsOf geo satellite_id ground_station_id predicted new
execute-again sky geo server server' satellite_id ground_station_id start end min n db db' satellite
      station longitude latitude predicted never never' fresh fresh' there here located found differ
      tracks went =
    let (new, db1, made, rows, fit, sats, stations, events) =
      execute-Replaces sky geo server satellite_id ground_station_id start end min n db satellite
        station longitude latitude predicted never fresh there here located found differ tracks in
    let same : db1 ≡ db' = second_inj (sym made ∙ went) in
    let sats' : db'.satellites ≡ db.satellites =
      ap (λ (d : Database sky.Float geo.Wkb). d.satellites) (sym same) ∙ sats in
    let stations' : db'.ground_stations ≡ db.ground_stations =
      ap (λ (d : Database sky.Float geo.Wkb). d.ground_stations) (sym same) ∙ stations in
    let there' = ap (get_by_id (λ (s : Satellite). s.id) satellite_id) sats' ∙ there in
    let here' =
      ap (get_by_id (λ (g : GroundStation sky.Float geo.Wkb). g.id) ground_station_id) stations'
      ∙ here in
    let (new', db2, made', rows', fit', _, _, _) =
      execute-Replaces sky geo server' satellite_id ground_station_id start end min n db' satellite
        station longitude latitude predicted never' fresh' there' here' located found differ
        tracks in
    let is_this = is_of_pair satellite_id ground_station_id in
    let before : db'.pass_predictions ≡ delete_where is_this db.pass_predictions ++ new =
      ap (λ (d : Database sky.Float geo.Wkb). d.pass_predictions) (sym same) ∙ rows in
    let cleared =
      ap (delete_where is_this) before
      ∙ delete_where-delete_where is_this db.pass_predictions new
          (AreRowsOf-pair geo satellite_id ground_station_id predicted new fit) in
    (new', db2, made', rows' ∙ ap (λ rs. rs ++ new') cleared, fit')
