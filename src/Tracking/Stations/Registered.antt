-- ===== src/Tracking/Stations/Registered.antt =====
-- What a registration stores and answers.
use apsis.Prelude.{
  ℕ, ◌+◌, Str, str_eq, str_eq_refl, true, false, ◌||◌, none, some, [], ◌∷◌, ◌++◌, All, any, ◌==◌,
  ◌≡◌, ◌≢◌, refl,
}
use apsis.Database.{first_where}
use apsis.Database.Select.{or_else, first_where-append, no_key}
use apsis.Tracking.Models.{GroundStation, Database, Server, done, raised, conflict}
use apsis.Tracking.Repos.{fits, is_storable}
use apsis.Tracking.Geometry.{Geoalchemy, Shape, point_to_wkb, wkb_to_lonlat-point_to_wkb}
use apsis.Tracking.Stations.{
  GroundStationRead, get_by_name, create_station, register_station, to_read,
  register_ground_station,
}

module _ {Float : Type 0} (geo : Geoalchemy Float) (server : Server) (name : Str)
    (latitude longitude altitude_m : Float) (db : Database Float geo.Wkb) where
  abbrev pub registered : GroundStation Float geo.Wkb
  registered = record {
    id = server.gen_random_uuid db.generated;
    name = name;
    location = point_to_wkb geo latitude longitude;
    altitude_m = altitude_m;
    created_at = server.now;
    updated_at = none;
  }

  abbrev pub answer : GroundStationRead Float
  answer = record {
    id = server.gen_random_uuid db.generated;
    name = name;
    latitude = latitude;
    longitude = longitude;
    altitude_m = altitude_m;
    created_at = server.now;
    updated_at = none;
  }

  abbrev pub with_station : Database Float geo.Wkb
  with_station = record db {
    ground_stations = db.ground_stations ++ registered ∷ [];
    generated = db.generated + 1;
  }

  found_again :
      get_by_name name db.ground_stations ≡ none
      → get_by_name name with_station.ground_stations ≡ some registered
  unfolding get_by_name first_where or_else
  found_again missing =
      rw
        (first_where-append (λ (g : GroundStation Float geo.Wkb). str_eq g.name name)
          db.ground_stations (registered ∷ []))
        (rw (missing, str_eq_refl name))

  nothing_clashes :
      get_by_name name db.ground_stations ≡ none
      → All
          (λ (g : GroundStation Float geo.Wkb). g.id ≢ server.gen_random_uuid db.generated)
          db.ground_stations
      → any
          (λ (g : GroundStation Float geo.Wkb).
            g.id == server.gen_random_uuid db.generated || str_eq g.name name)
          db.ground_stations
        ≡ false
  unfolding get_by_name
  nothing_clashes missing new =
      no_key (λ (g : GroundStation Float geo.Wkb). g.id) (server.gen_random_uuid db.generated)
        (λ g. str_eq g.name name) db.ground_stations new missing

  created :
      get_by_name name db.ground_stations ≡ none
      → fits name ≡ true
      → is_storable name ≡ true
      → All
          (λ (g : GroundStation Float geo.Wkb). g.id ≢ server.gen_random_uuid db.generated)
          db.ground_stations
      → register_station geo server name latitude longitude altitude_m db
        ≡ done (registered, with_station)
  unfolding register_station create_station
  created missing short clean new =
      rw (missing, short, clean, nothing_clashes missing new, register_station, create_station) refl

-- If shapes are read back as they were written, no station has the name, it has at most 255
-- characters, none of them U+0000, and the generated UUID is new: registering a station answers with the name, latitude,
-- longitude and altitude that were sent, adds one row at the end of the table, which a search for the
-- name then finds, and any further registration of that name, with any data, is a conflict.
pub register_ground_station-stored :
    {Float : Type 0} (geo : Geoalchemy Float) (server : Server) (name : Str)
    (latitude longitude altitude_m : Float) (db : Database Float geo.Wkb)
    → ((shape : Shape Float) (srid : ℕ) → geo.to_shape (geo.from_shape shape srid) ≡ shape)
    → get_by_name name db.ground_stations ≡ none
    → fits name ≡ true
    → is_storable name ≡ true
    → All
        (λ (g : GroundStation Float geo.Wkb). g.id ≢ server.gen_random_uuid db.generated)
        db.ground_stations
    → (register_ground_station geo server name latitude longitude altitude_m db
        ≡ done (
          answer geo server name latitude longitude altitude_m db,
          with_station geo server name latitude longitude altitude_m db,
        ))
      × (get_by_name name
            (with_station geo server name latitude longitude altitude_m db).ground_stations
          ≡ some (registered geo server name latitude longitude altitude_m db))
      × ((server' : Server) (latitude' longitude' altitude_m' : Float)
          → register_ground_station geo server' name latitude' longitude' altitude_m'
              (with_station geo server name latitude longitude altitude_m db)
            ≡ raised (conflict name))
unfolding register_ground_station register_station to_read
register_ground_station-stored geo server name latitude longitude altitude_m db inverse missing
      short clean new =
    let found = found_again geo server name latitude longitude altitude_m db missing in
    (
      rw
          (
            created geo server name latitude longitude altitude_m db missing short clean new,
            wkb_to_lonlat-point_to_wkb geo latitude longitude inverse,
            register_ground_station,
            to_read,
          )
          refl,
      found,
      λ server' latitude' longitude' altitude_m'.
          rw (clean, found, register_ground_station, register_station) refl,
    )
