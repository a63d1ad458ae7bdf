-- ===== src/Tracking/Views.antt =====
-- The passes of a station (app/tracking/use_cases/get_ground_station_passes.py, and the lists of
-- repos/satellite.py and repos/pass_prediction.py).
pub mod Join
use apsis.Prelude.{
  ℕ, ℤ, Str, codes, Dict, Instant, Uuid, Bool, ◌&&◌, Option, none, some, List, [], ◌∷◌, keep, leb,
  ◌==◌,
}
use apsis.Database.{order_by, get_by_id, last_with_id}
use apsis.Tracking.Models.{
  Satellite, GroundStation, PassPrediction, Database, Attempt, done, raised, ◌>>=◌, not_found,
  key_error,
}
use apsis.Tracking.Geometry.{Geoalchemy, Shape, srid_wgs84}
use apsis.Tracking.Geojson.{Value, wkb_to_geojson}

pub record PassView (Float : Type 0) : Type 0 where
  pub satellite_norad_id : ℤ
  pub satellite_name : Str
  pub aos_at : Instant
  pub los_at : Instant
  pub peak_at : Instant
  pub peak_elevation_deg : Float
  pub track : Dict (Value Float)

-- `SatelliteRepo.list_all`, by the collation of the database.
unfoldable pub list_satellites : (Str → Str → Bool) → List Satellite → List Satellite
unfolding order_by
list_satellites collates rows = order_by (λ (s t : Satellite). collates s.name t.name) rows

module _ {Float Wkb : Type 0} where
  unfoldable pub is_shown :
      (ground_station_id : Uuid) → (after : Instant) → PassPrediction Float Wkb → Bool
  is_shown ground_station_id after p =
      p.ground_station_id == ground_station_id && leb after p.aos_at

  abbrev pub by_aos : PassPrediction Float Wkb → PassPrediction Float Wkb → Bool
  by_aos p q = leb p.aos_at q.aos_at

  -- `PassPredictionRepo.list_for_ground_station`
  unfoldable pub list_for_ground_station :
      (ground_station_id : Uuid)
      → (after : Instant) → List (PassPrediction Float Wkb)
      → List (PassPrediction Float Wkb)
  unfolding is_shown order_by
  list_for_ground_station ground_station_id after rows =
      order_by by_aos (keep (is_shown ground_station_id after) rows)

-- PostGIS: ST_MakeEnvelope and ST_Intersects.
pub record Postgis (Float Wkb : Type 0) : Type 1 where
  pub Geometry : Type 0
  pub make_envelope : (xmin ymin xmax ymax : Float) → (srid : ℕ) → Geometry
  pub intersects : Wkb → Geometry → Bool

-- `PassPredictionRepo.list_in_bbox`
unfoldable pub list_in_bbox :
    {Float Wkb : Type 0}
    → Postgis Float Wkb
    → (min_lon min_lat max_lon max_lat : Float) → List (PassPrediction Float Wkb)
    → List (PassPrediction Float Wkb)
unfolding order_by
list_in_bbox {Float} {Wkb} postgis min_lon min_lat max_lon max_lat rows =
    let envelope = postgis.make_envelope min_lon min_lat max_lon max_lat srid_wgs84 in
    order_by by_aos
      (keep (λ (p : PassPrediction Float Wkb). postgis.intersects p.track envelope) rows)

or_key_error : {A : Type 0} → Option A → Attempt A
or_key_error none = raised key_error
or_key_error (some a) = done a

module _ {Float : Type 0} (geo : Geoalchemy Float) (mapping : Shape Float → Dict (Value Float))
    (collates : Str → Str → Bool) where
  -- One `PassView` of the comprehension.
  unfoldable pub view_of : List Satellite → PassPrediction Float geo.Wkb → Attempt (PassView Float)
  unfolding or_key_error last_with_id wkb_to_geojson
  view_of satellites p = do
    satellite ← or_key_error (last_with_id (λ (s : Satellite). s.id) p.satellite_id satellites)
    track ← or_key_error (wkb_to_geojson geo mapping p.track)
    done (record {
      satellite_norad_id = satellite.norad_id;
      satellite_name = satellite.name;
      aos_at = p.aos_at;
      los_at = p.los_at;
      peak_at = p.peak_at;
      peak_elevation_deg = p.peak_elevation_deg;
      track = track;
    })

  unfoldable pub views_of :
      List Satellite → List (PassPrediction Float geo.Wkb) → Attempt (List (PassView Float))
  unfolding view_of
  views_of satellites [] = done []
  views_of satellites (p ∷ ps) = do
    view ← view_of satellites p
    views ← views_of satellites ps
    done (view ∷ views)

  -- `GetGroundStationPassesUseCase.execute`
  unfoldable pub get_ground_station_passes :
      (ground_station_id : Uuid)
      → (after : Instant) → Database Float geo.Wkb
      → Attempt (List (PassView Float))
  unfolding get_by_id list_for_ground_station list_satellites views_of
  get_ground_station_passes ground_station_id after db =
      elim (get_by_id (λ (g : GroundStation Float geo.Wkb). g.id) ground_station_id
        db.ground_stations) [
          | none ↦ raised (not_found (codes "GroundStation") ground_station_id)
          | some station ↦
              views_of (list_satellites collates db.satellites)
                (list_for_ground_station ground_station_id after db.pass_predictions)
        ]
