-- ===== src/Tracking/Stations.antt =====
-- Ground stations: their registration (app/tracking/use_cases/register_ground_station.py,
-- repos/ground_station.py) and what the endpoint of api/ground_stations.py answers.
pub mod Registered
use apsis.Prelude.{
  ℕ, ◌+◌, Str, str_eq, Instant, Uuid, Bool, true, false, not, ◌&&◌, ◌||◌, Option, none, some, List,
  [], ◌∷◌, ◌++◌, any, ◌==◌, if◌then◌else◌,
}
use apsis.Database.{first_where, order_by}
use apsis.Tracking.Models.{
  GroundStation, Database, Server, Attempt, done, raised, ◌>>=◌, conflict, integrity_error,
  data_error, attribute_error,
}
use apsis.Tracking.Repos.{fits, is_storable}
use apsis.Tracking.Geometry.{Geoalchemy, point_to_wkb, wkb_to_lonlat}

-- `GroundStationRead`
pub record GroundStationRead (Float : Type 0) : Type 0 where
  pub id : Uuid
  pub name : Str
  pub latitude : Float
  pub longitude : Float
  pub altitude_m : Float
  pub created_at : Instant
  pub updated_at : Option Instant

-- `GroundStationRepo.get_by_name`
unfoldable pub get_by_name :
    {Float Wkb : Type 0} → Str → List (GroundStation Float Wkb) → Option (GroundStation Float Wkb)
unfolding first_where
get_by_name {Float} {Wkb} name rows =
    first_where (λ (g : GroundStation Float Wkb). str_eq g.name name) rows

-- `GroundStationRepo.list_all`, by the collation of the database.
unfoldable pub list_ground_stations :
    {Float Wkb : Type 0}
    → (Str → Str → Bool)
    → List (GroundStation Float Wkb)
    → List (GroundStation Float Wkb)
unfolding order_by
list_ground_stations {Float} {Wkb} collates rows =
    order_by (λ (g h : GroundStation Float Wkb). collates g.name h.name) rows

-- `BaseRepo.create` of a station, with the column of its name and its UNIQUE constraints.
unfoldable pub create_station :
    {Float Wkb : Type 0}
    → Server
    → (name : Str) → (location : Wkb) → (altitude_m : Float) → Database Float Wkb
    → Attempt (GroundStation Float Wkb × Database Float Wkb)
create_station {Float} {Wkb} server name location altitude_m db =
    let id = server.gen_random_uuid db.generated in
    let row : GroundStation Float Wkb = record {
      id = id;
      name = name;
      location = location;
      altitude_m = altitude_m;
      created_at = server.now;
      updated_at = none;
    } in
    if not (fits name && is_storable name)
    then raised data_error
    else if any (λ (g : GroundStation Float Wkb). g.id == id || str_eq g.name name)
        db.ground_stations
    then raised integrity_error
    else done (
      row,
      record db { ground_stations = db.ground_stations ++ row ∷ []; generated = db.generated + 1 },
    )

module _ {Float : Type 0} (geo : Geoalchemy Float) where
  -- `RegisterGroundStationUseCase.execute`, whose first statement has the name as its parameter.
  unfoldable pub register_station :
      Server
      → (name : Str) → (latitude longitude altitude_m : Float) → Database Float geo.Wkb
      → Attempt (GroundStation Float geo.Wkb × Database Float geo.Wkb)
  unfolding get_by_name create_station point_to_wkb
  register_station server name latitude longitude altitude_m db =
      if not (is_storable name)
      then raised data_error
      else elim (get_by_name name db.ground_stations) [
        | some station ↦ raised (conflict name)
        | none ↦ create_station server name (point_to_wkb geo latitude longitude) altitude_m db
      ]

  -- `_to_read`
  unfoldable pub to_read : GroundStation Float geo.Wkb → Attempt (GroundStationRead Float)
  unfolding wkb_to_lonlat
  to_read station = elim (wkb_to_lonlat geo station.location) [
    | none ↦ raised attribute_error
    | some lonlat ↦ done (record {
      id = station.id;
      name = station.name;
      latitude = lonlat.1;
      longitude = lonlat.0;
      altitude_m = station.altitude_m;
      created_at = station.created_at;
      updated_at = station.updated_at;
    })
  ]

  -- The endpoint, whose session commits if nothing is raised.
  unfoldable pub register_ground_station :
      Server
      → (name : Str) → (latitude longitude altitude_m : Float) → Database Float geo.Wkb
      → Attempt (GroundStationRead Float × Database Float geo.Wkb)
  unfolding register_station to_read
  register_ground_station server name latitude longitude altitude_m db =
      register_station server name latitude longitude altitude_m db >>= λ result.
      to_read result.0 >>= λ reading. done (reading, result.1)
