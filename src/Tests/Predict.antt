-- ===== src/Tests/Predict.antt =====
-- The recomputation of passes at a concrete input: one prediction is replaced, one of another
-- station stays.
use apsis.Prelude.{
  ℕ, ◌+◌, pos, codes, Instant, none, some, List, [], ◌∷◌, ◌++◌, ltb, ◌≡◌, refl, arith,
}
use apsis.Database.{get_by_id, first_where, delete_where}
use apsis.Tracking.Models.{Satellite, GroundStation, PassPrediction, Database, Server, done}
use apsis.Tracking.Geometry.{
  Geoalchemy, Shape, point, line_string, wkb_to_lonlat, lonlat_of, linestring_to_wkb,
}
use apsis.Tracking.Passes.{
  SatellitePass, Skyfield, Checked, EventCode, rise, culminate, set, aware_at, compute_passes,
  collect_passes, build_pass, subpoints, sample_instants, samples_from, set_last, sample_at,
  divide_and_round,
}
use apsis.Tracking.Predict.Converges.{execute-again}
use apsis.Tracking.Predict.{
  is_of_pair, execute, replace_passes, predicted_of, delete_for_satellite_and_station,
  create_predictions, create_prediction,
}
use apsis.Tracking.Predict.Loop.{AreRowsOf}
use apsis.Tracking.Predict.Replaced.{execute-Replaces}

abbrev one_pass : List (Instant × EventCode)
one_pass = (10, rise) ∷ (13, culminate) ∷ (17, set) ∷ []

abbrev pub sky : Skyfield
sky = record {
  Float = ℕ;
  Time = ℕ;
  from_datetime = λ t. t;
  utc_datetime = λ t. t;
  float_lt = ltb;
  degrees = λ d. d;
  find_events = λ line1 line2 observer start end least. one_pass;
  elevation = λ line1 line2 observer t. t + 20;
  subpoint = λ line1 line2 t. (t, t + 1, 400);
}

abbrev pub geo : Geoalchemy ℕ
geo = record { Wkb = Shape ℕ; from_shape = λ shape srid. shape; to_shape = λ shape. shape }

abbrev pub server : Server
server = record { now = 1000; gen_random_uuid = λ k. k + 100 }

abbrev pub iss : Satellite
iss = record {
  id = 7;
  norad_id = pos 25544;
  name = codes "ISS";
  tle_line1 = codes "1 25544U";
  tle_line2 = codes "2 25544";
  epoch = 4;
  created_at = 3;
  updated_at = none;
}

abbrev pub madrid : GroundStation ℕ (Shape ℕ)
madrid = record {
  id = 8;
  name = codes "Madrid";
  location = point 3 40;
  altitude_m = 600;
  created_at = 2;
  updated_at = none;
}

abbrev old_row : ℕ → ℕ → PassPrediction ℕ (Shape ℕ)
old_row id station = record {
  id = id;
  satellite_id = 7;
  ground_station_id = station;
  aos_at = 10;
  los_at = 16;
  peak_at = 12;
  peak_elevation_deg = 30;
  track = line_string [];
  created_at = 5;
  updated_at = none;
}

abbrev pub before : Database ℕ (Shape ℕ)
before = record {
  satellites = iss ∷ [];
  ground_stations = madrid ∷ [];
  pass_predictions = old_row 20 8 ∷ old_row 21 9 ∷ [];
  outbox_events = [];
  generated = 0;
}

abbrev predicted : List (SatellitePass ℕ)
predicted =
    record {
      aos_at = 10;
      los_at = 17;
      peak_at = 13;
      peak_elevation_deg = 33;
      ground_track = (11, 10) ∷ (18, 17) ∷ [];
    }
    ∷ []

one_found :
    compute_passes sky iss.tle_line1 iss.tle_line2
      (record { latitude = 40; longitude = 3; elevation_m = 600 })
      (aware_at 1)
      (aware_at 60)
      10
      2
    ≡ Checked.ok predicted
unfolding compute_passes collect_passes build_pass subpoints sample_instants samples_from set_last
    sample_at divide_and_round
one_found = refl

pub iss_there : get_by_id (λ (s : Satellite). s.id) 7 before.satellites ≡ some iss
unfolding get_by_id first_where
iss_there = refl

madrid_here :
    get_by_id (λ (g : GroundStation ℕ (Shape ℕ)). g.id) 8 before.ground_stations ≡ some madrid
unfolding get_by_id first_where
madrid_here = refl

madrid_located : wkb_to_lonlat geo madrid.location ≡ some (3, 40)
unfolding wkb_to_lonlat lonlat_of
madrid_located = refl

execute-Replaces_example :
    (new : List (PassPrediction ℕ (Shape ℕ))) × (db' : Database ℕ (Shape ℕ)) × (execute sky geo
        server 7 8
        (aware_at 1)
        (aware_at 60)
        10
        2
        before
      ≡ done (1, db'))
    × (db'.pass_predictions ≡ delete_where (is_of_pair 7 8) before.pass_predictions ++ new)
    × AreRowsOf geo 7 8 predicted new
    × (db'.satellites ≡ before.satellites)
    × (db'.ground_stations ≡ before.ground_stations)
    × (db'.outbox_events ≡ before.outbox_events)
execute-Replaces_example =
    execute-Replaces sky geo server 7 8 (aware_at 1) (aware_at 60) 10 2 before iss madrid 3 40
      predicted (λ i j same. omega arith)
      (λ k later. ((λ same. absurd (omega arith)), ((λ same. absurd (omega arith)), tt))) iss_there
      madrid_here madrid_located one_found (tt, tt) (omega arith, tt)

abbrev later_server : Server
later_server = record { now = 2000; gen_random_uuid = λ k. k + 200 }

abbrev after : Database ℕ (Shape ℕ)
after = record before {
  pass_predictions =
      old_row 21 9
      ∷ record {
        id = 100;
        satellite_id = 7;
        ground_station_id = 8;
        aos_at = 10;
        los_at = 17;
        peak_at = 13;
        peak_elevation_deg = 33;
        track = line_string ((11, 10) ∷ (18, 17) ∷ []);
        created_at = 1000;
        updated_at = none;
      }
      ∷ [];
  generated = 1;
}

went_well : execute sky geo server 7 8 (aware_at 1) (aware_at 60) 10 2 before ≡ done (1, after)
unfolding execute replace_passes predicted_of delete_for_satellite_and_station create_predictions
    create_prediction linestring_to_wkb wkb_to_lonlat lonlat_of get_by_id first_where delete_where
    is_of_pair compute_passes collect_passes build_pass subpoints sample_instants samples_from
    set_last sample_at divide_and_round
went_well = refl

execute-again_example :
    (new : List (PassPrediction ℕ (Shape ℕ))) × (db : Database ℕ (Shape ℕ)) × (execute sky geo
        later_server 7 8
        (aware_at 1)
        (aware_at 60)
        10
        2
        after
      ≡ done (1, db))
    × (db.pass_predictions ≡ delete_where (is_of_pair 7 8) before.pass_predictions ++ new)
    × AreRowsOf geo 7 8 predicted new
execute-again_example =
    execute-again sky geo server later_server 7 8 (aware_at 1) (aware_at 60) 10 2 before after iss
      madrid 3 40 predicted (λ i j same. omega arith) (λ i j same. omega arith)
      (λ k later. ((λ same. absurd (omega arith)), ((λ same. absurd (omega arith)), tt)))
      (λ k later. ((λ same. absurd (omega arith)), ((λ same. absurd (omega arith)), tt))) iss_there
      madrid_here madrid_located one_found (tt, tt) (omega arith, tt) went_well
