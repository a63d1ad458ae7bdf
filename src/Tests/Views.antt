-- ===== src/Tests/Views.antt =====
-- GeoJSON and the list of a station's passes at concrete inputs.
use mathlib.Core.List.{Perm}
use apsis.Prelude.{
  ℕ, pos, codes, Dict, none, some, true, List, [], ◌∷◌, ◌++◌, keep, is_some, lookup, insert, str_eq,
  length, ◌≡◌, refl, arith,
}
use apsis.Database.{get_by_id, first_where}
use apsis.Database.Pages.{IsOrdered}
use apsis.Tracking.Models.{Satellite, GroundStation, PassPrediction, Database, done}
use apsis.Tracking.Geometry.{Geoalchemy, Shape, point, line_string, linestring_to_wkb}
use apsis.Tracking.Geojson.{
  Value, text, number, tuple_of, list_of, item, end, coordinates_of, line_mapping, have_no_tuple,
  wkb_to_geojson, with_lists, to_lists, wkb_to_geojson-linestring_to_wkb,
}
use apsis.Tracking.Views.{PassView, is_shown, by_aos, get_ground_station_passes}
use apsis.Errors.{answered, refused, uuid_str}
use apsis.Api.{or_now, get_passes}
use apsis.Api.Passes.{get_passes_lem}
use apsis.Tracking.Views.Join.{AreViewsOf, get_ground_station_passes-joins}

abbrev geo : Geoalchemy ℕ
geo = record { Wkb = Shape ℕ; from_shape = λ shape srid. shape; to_shape = λ shape. shape }

abbrev mapping : Shape ℕ → Dict (Value ℕ)
mapping (point x y) =
    (codes "type", text (codes "Point"))
    ∷ (codes "coordinates", tuple_of (item (number x) (item (number y) end)))
    ∷ []
mapping (line_string ps) = line_mapping tuple_of ps

abbrev track : List (ℕ × ℕ)
track = (11, 10) ∷ (18, 17) ∷ []

wkb_to_geojson-linestring_to_wkb_example :
    (wkb : Shape ℕ) × (linestring_to_wkb geo track ≡ done wkb)
    × (wkb_to_geojson geo mapping wkb ≡ some (line_mapping list_of track))
    × (have_no_tuple (coordinates_of {Float = ℕ} list_of track) ≡ true)
wkb_to_geojson-linestring_to_wkb_example =
    wkb_to_geojson-linestring_to_wkb geo mapping track (λ shape srid. refl) (λ qs. refl)
      (omega arith)

abbrev iss : Satellite
iss = record {
  id = 7;
  norad_id = pos 25544;
  name = codes "ISS";
  tle_line1 = codes "1 25544U";
  tle_line2 = codes "2 25544";
  epoch = 4;
  created_at = 3;
  updated_at = none;
}

abbrev madrid : GroundStation ℕ (Shape ℕ)
madrid = record {
  id = 8;
  name = codes "Madrid";
  location = point 3 40;
  altitude_m = 600;
  created_at = 2;
  updated_at = none;
}

abbrev prediction : ℕ → ℕ → PassPrediction ℕ (Shape ℕ)
prediction id aos = record {
  id = id;
  satellite_id = 7;
  ground_station_id = 8;
  aos_at = aos;
  los_at = 90;
  peak_at = 60;
  peak_elevation_deg = 30;
  track = line_string track;
  created_at = 5;
  updated_at = none;
}

abbrev db : Database ℕ (Shape ℕ)
db = record {
  satellites = iss ∷ [];
  ground_stations = madrid ∷ [];
  pass_predictions = prediction 20 50 ∷ prediction 21 40 ∷ prediction 22 3 ∷ [];
  outbox_events = [];
  generated = 0;
}

iss_owns : is_some (get_by_id (λ (s : Satellite). s.id) 7 db.satellites) ≡ true
unfolding get_by_id first_where
iss_owns = refl

drawn : is_some (wkb_to_geojson geo mapping (line_string track)) ≡ true
unfolding wkb_to_geojson with_lists lookup insert to_lists str_eq
drawn = refl

madrid_there :
    is_some (get_by_id (λ (g : GroundStation ℕ (Shape ℕ)). g.id) 8 db.ground_stations) ≡ true
unfolding get_by_id first_where
madrid_there = refl

get_ground_station_passes-joins_example :
    (ps : List (PassPrediction ℕ (Shape ℕ))) × (vs : List (PassView ℕ)) × (get_ground_station_passes
        geo mapping
        (λ s t. true)
        8
        10
        db
      ≡ done vs)
    × AreViewsOf geo mapping db.satellites ps vs
    × Perm ps (keep (is_shown 8 10) db.pass_predictions)
    × IsOrdered by_aos ps
get_ground_station_passes-joins_example =
    get_ground_station_passes-joins geo mapping (λ s t. true) 8 10 db (tt, tt)
      ((iss_owns, drawn), ((iss_owns, drawn), ((iss_owns, drawn), tt))) madrid_there

get_passes_lem_example :
    let (r, db') = get_passes geo mapping (λ s t. true) 8 none 10 db in
    let station = get_by_id (λ (g : GroundStation ℕ (Shape ℕ)). g.id) 8 db.ground_stations in
    (db' ≡ db)
    × (station ≡ none
        → r
          ≡ refused 404
              (codes "GroundStation not found (id: " ++ (uuid_str 8 ++ codes ")"))
              (codes "not_found"))
    × (is_some station ≡ true
        → (ps : List (PassPrediction ℕ (Shape ℕ))) × (vs : List (PassView ℕ)) × (r
            ≡ answered 200 (record { items = vs; total = length ps }))
          × AreViewsOf geo mapping db.satellites ps vs
          × Perm ps (keep (is_shown 8 (or_now none 10)) db.pass_predictions)
          × IsOrdered by_aos ps)
get_passes_lem_example =
    get_passes_lem geo mapping (λ s t. true) 8 none 10 db (tt, tt)
      ((iss_owns, drawn), ((iss_owns, drawn), ((iss_owns, drawn), tt)))
