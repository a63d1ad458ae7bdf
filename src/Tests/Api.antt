-- ===== src/Tests/Api.antt =====
-- The endpoints at concrete requests.
use apsis.Prelude.{◌∷◌, ◌+◌, ℤ, pos, negsuc, codes, Bool, true, false, not, leb, [], ◌≡◌, refl}
use apsis.Tracking.Models.{Database, Server}
use apsis.Tracking.Geometry.{Geoalchemy, Shape}
use apsis.Errors.{internal_error}
use apsis.Api.{Floats, GroundStationCreate, is_acceptable, post_ground_station, between}

abbrev le_int : ℤ → ℤ → Bool
le_int (pos m) (pos n) = leb m n
le_int (negsuc m) (negsuc n) = leb n m
le_int (pos m) (negsuc n) = false
le_int (negsuc m) (pos n) = true

abbrev whole_numbers : Floats
whole_numbers = record { Float = ℤ; lt = λ i j. not (le_int j i); le = le_int; literal = λ i. i }

abbrev geo : Geoalchemy ℤ
geo = record { Wkb = Shape ℤ; from_shape = λ shape srid. shape; to_shape = λ shape. shape }

abbrev server : Server
server = record { now = 1000; gen_random_uuid = λ k. k + 100 }

abbrev empty : Database ℤ (Shape ℤ)
empty = record {
  satellites = [];
  ground_stations = [];
  pass_predictions = [];
  outbox_events = [];
  generated = 0;
}

abbrev madrid : GroundStationCreate ℤ
madrid = record {
  name = codes "Madrid";
  latitude = pos 40;
  longitude = negsuc 2;
  altitude_m = pos 600;
}

nul_in_name :
    post_ground_station whole_numbers geo server (record madrid { name = 0 ∷ [] }) empty
    ≡ (internal_error, empty)
unfolding post_ground_station
nul_in_name = refl

too_far_north : is_acceptable whole_numbers (record madrid { latitude = pos 91 }) ≡ false
unfolding is_acceptable between
too_far_north = refl

-- Floats among which only NaNs are met: every comparison fails.
abbrev nans : Floats
nans = record { Float = ℤ; lt = λ i j. false; le = λ i j. false; literal = λ i. i }

nan_accepted : is_acceptable nans madrid ≡ true
unfolding is_acceptable between
nan_accepted = refl
