-- ===== src/Api.antt =====
-- The endpoints (app/tracking/api and schemas) with the validation of their requests.
pub mod Register
pub mod Passes
use apsis.Prelude.{
  ℕ, ℤ, Dict, pos, negsuc, Str, Instant, Uuid, Bool, true, false, not, ◌&&◌, Option, none, some,
  List, [], ◌∷◌, length, leb, if◌then◌else◌,
}
use apsis.Database.{list_paginated, order_by}
use apsis.Tracking.Models.{Satellite, GroundStation, Database, Server, Attempt, done, raised, ◌>>=◌}
use apsis.Tracking.Geometry.{Geoalchemy}
use apsis.Tracking.Stations.{
  GroundStationRead, to_read, register_ground_station, list_ground_stations,
}
use apsis.Tracking.Geometry.{Shape}
use apsis.Tracking.Geojson.{Value}
use apsis.Tracking.Views.{PassView, get_ground_station_passes}
use apsis.Errors.{Response, not_valid, in_session}

-- Python's comparisons `<` and `<=` of floats, and its literals.
pub record Floats : Type 1 where
  pub Float : Type 0
  pub lt : Float → Float → Bool
  pub le : Float → Float → Bool
  pub literal : ℤ → Float

-- `GroundStationCreate`, before its validation.
pub record GroundStationCreate (Float : Type 0) : Type 0 where
  pub name : Str
  pub latitude : Float
  pub longitude : Float
  pub altitude_m : Float

module _ (floats : Floats) where
  open floats use {Float, lt, literal}

  -- `ge` and `le` of a field: pydantic refuses what is less than the one or greater than the other.
  unfoldable pub between : ℤ → ℤ → Float → Bool
  between low high x = not (lt x (literal low)) && not (lt (literal high) x)

  -- The constraints of the fields.
  unfoldable pub is_acceptable : GroundStationCreate Float → Bool
  unfolding between
  is_acceptable body =
      leb 1 (length body.name)
      && leb (length body.name) 255
      && between (negsuc 89) (pos 90) body.latitude
      && between (negsuc 179) (pos 180) body.longitude
      && between (negsuc 499) (pos 100000) body.altitude_m

  -- POST /ground-stations
  unfoldable pub post_ground_station :
      (geo : Geoalchemy Float)
      → Server
      → GroundStationCreate Float
      → Database Float geo.Wkb
      → Response (GroundStationRead Float) × Database Float geo.Wkb
  unfolding is_acceptable register_ground_station in_session
  post_ground_station geo server body db =
      if is_acceptable body
      then in_session 201
          (register_ground_station geo server body.name body.latitude body.longitude body.altitude_m
            db)
          db
      else (not_valid, db)

-- `SatelliteRead`
pub record SatelliteRead : Type 0 where
  pub id : Uuid
  pub norad_id : ℤ
  pub name : Str
  pub epoch : Instant
  pub created_at : Instant
  pub updated_at : Option Instant

unfoldable pub read_satellite : Satellite → SatelliteRead
read_satellite s = record {
  id = s.id;
  norad_id = s.norad_id;
  name = s.name;
  epoch = s.epoch;
  created_at = s.created_at;
  updated_at = s.updated_at;
}

-- `SatelliteListResponse`
pub record SatelliteListResponse : Type 0 where
  pub items : List SatelliteRead
  pub total : ℕ
  pub limit : ℕ
  pub offset : ℕ

abbrev pub read_satellites : List Satellite → List SatelliteRead
read_satellites [] = []
read_satellites (s ∷ ss) = read_satellite s ∷ read_satellites ss

-- GET /satellites with its query, where `ge=1, le=100` and `ge=0` are the constraints.
unfoldable pub get_satellites :
    {Float Wkb : Type 0}
    → (limit offset : ℤ) → Database Float Wkb
    → Response SatelliteListResponse × Database Float Wkb
unfolding in_session list_paginated read_satellite
get_satellites (pos limit) (pos offset) db =
    if leb 1 limit && leb limit 100
    then (let page = list_paginated (λ (s : Satellite). s.id) limit offset db.satellites in
        in_session 200
          (done (
            record {
              items = read_satellites page.0;
              total = page.1;
              limit = limit;
              offset = offset;
            },
            db,
          ))
          db)
    else (not_valid, db)
get_satellites limit offset db = (not_valid, db)

-- `GroundStationListResponse`
pub record GroundStationListResponse (Float : Type 0) : Type 0 where
  pub items : List (GroundStationRead Float)
  pub total : ℕ

-- `PassListResponse`; `PassRead` has the fields of a view.
pub record PassListResponse (Float : Type 0) : Type 0 where
  pub items : List (PassView Float)
  pub total : ℕ

abbrev pub or_now : Option Instant → Instant → Instant
or_now none now = now
or_now (some after) now = after

module _ {Float : Type 0} (geo : Geoalchemy Float) where
  abbrev pub read_stations :
      List (GroundStation Float geo.Wkb) → Attempt (List (GroundStationRead Float))
  read_stations [] = done []
  read_stations (g ∷ gs) = do
    reading ← to_read geo g
    readings ← read_stations gs
    done (reading ∷ readings)

  -- GET /ground-stations; `list_all` orders by the collation of the database.
  unfoldable pub get_ground_stations :
      (collates : Str → Str → Bool)
      → Database Float geo.Wkb
      → Response (GroundStationListResponse Float) × Database Float geo.Wkb
  unfolding in_session to_read list_ground_stations
  get_ground_stations collates db =
      let stations = list_ground_stations collates db.ground_stations in
      in_session 200
        (read_stations stations >>= λ readings.
          done (record { items = readings; total = length stations }, db))
        db

  -- GET /ground-stations/{ground_station_id}/passes: `after or datetime.now(UTC)`.
  unfoldable pub get_passes :
      (mapping : Shape Float → Dict (Value Float))
      → (collates : Str → Str → Bool) → (ground_station_id : Uuid) → (after : Option Instant)
      → (now : Instant) → Database Float geo.Wkb
      → Response (PassListResponse Float) × Database Float geo.Wkb
  unfolding in_session get_ground_station_passes
  get_passes mapping collates ground_station_id after now db =
      in_session 200
        (get_ground_station_passes geo mapping collates ground_station_id (or_now after now) db
          >>= λ views. done (record { items = views; total = length views }, db))
        db
