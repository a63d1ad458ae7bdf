-- ===== src/Tests/Stations.antt =====
-- The registration of a station at a concrete input.
use apsis.Prelude.{ℕ, ◌+◌, Str, codes, none, some, [], ◌≡◌, refl}
use apsis.Database.{first_where}
use apsis.Tracking.Models.{Database, Server, done, raised, conflict}
use apsis.Tracking.Geometry.{Geoalchemy, Shape}
use apsis.Tracking.Stations.{get_by_name, register_ground_station}
use apsis.Tracking.Stations.Registered.{
  registered, answer, with_station, register_ground_station-stored,
}

abbrev geo : Geoalchemy ℕ
geo = record { Wkb = Shape ℕ; from_shape = λ shape srid. shape; to_shape = λ shape. shape }

abbrev server : Server
server = record { now = 1000; gen_random_uuid = λ k. k + 100 }

abbrev empty : Database ℕ (Shape ℕ)
empty = record {
  satellites = [];
  ground_stations = [];
  pass_predictions = [];
  outbox_events = [];
  generated = 0;
}

abbrev madrid : Str
madrid = codes "Madrid"

nothing_there : get_by_name madrid empty.ground_stations ≡ none
unfolding get_by_name first_where
nothing_there = refl

register_ground_station-stored_example :
    (register_ground_station geo server madrid 40 3 600 empty
      ≡ done
          (answer geo server madrid 40 3 600 empty, with_station geo server madrid 40 3 600 empty))
    × (get_by_name madrid (with_station geo server madrid 40 3 600 empty).ground_stations
        ≡ some (registered geo server madrid 40 3 600 empty))
    × ((server' : Server) (latitude' longitude' altitude_m' : ℕ)
        → register_ground_station geo server' madrid latitude' longitude' altitude_m'
            (with_station geo server madrid 40 3 600 empty)
          ≡ raised (conflict madrid))
register_ground_station-stored_example =
    register_ground_station-stored geo server madrid 40 3 600 empty (λ shape srid. refl)
      nothing_there refl refl tt
