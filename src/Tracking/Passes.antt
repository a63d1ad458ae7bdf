-- ===== src/Tracking/Passes.antt =====
-- The pass detector (app/tracking/services/passes.py and propagation.py). skyfield and floats are
-- parameters: a record of what the code calls.
pub mod Sampling
pub mod Detection
use apsis.Prelude.{
  ℕ, zero, suc, ◌+◌, ◌-◌, ◌*◌, ◌/◌, ◌%◌, Str, Instant, Bool, true, false, not, ◌&&◌, ◌||◌, Option,
  none, some, List, [], ◌∷◌, ◌++◌, map, length, any, leb, ltb, ◌==◌, if◌then◌else◌,
}

-- A `datetime`: its instant, and whether it carries a time zone.
pub record Datetime : Type 0 where
  pub at : Instant
  pub aware : Bool

-- `_RISE`, `_CULMINATE`, `_SET`, and any other code.
pub data EventCode : Type 0 where
  rise culminate set other : EventCode

pub record GeodeticPoint (Float : Type 0) : Type 0 where
  pub at : Instant
  pub latitude : Float
  pub longitude : Float
  pub altitude_km : Float

pub record ObserverSite (Float : Type 0) : Type 0 where
  pub latitude : Float
  pub longitude : Float
  pub elevation_m : Float

pub record SatellitePass (Float : Type 0) : Type 0 where
  pub aos_at : Instant
  pub los_at : Instant
  pub peak_at : Instant
  pub peak_elevation_deg : Float
  pub ground_track : List (Float × Float)

-- Python's float comparison and literals, and skyfield: its times with their conversions, the events
-- of a satellite over an observer in a window, its elevation there at a time, and its subpoint
-- (latitude, longitude, altitude) at a time. Satellites are given by the two lines of their TLE.
pub record Skyfield : Type 1 where
  pub Float : Type 0
  pub Time : Type 0
  pub from_datetime : Instant → Time
  pub utc_datetime : Time → Instant
  pub float_lt : Float → Float → Bool
  pub degrees : ℕ → Float
  pub find_events :
      (line1 line2 : Str) → ObserverSite Float → Time → Time → Float → List (Time × EventCode)
  pub elevation : (line1 line2 : Str) → ObserverSite Float → Time → Float
  pub subpoint : (line1 line2 : Str) → Time → Float × Float × Float

-- The `ValueError`s of the services, by the value that is refused.
pub data ValueError : Type 0 where
  naive_window empty_window bad_elevation few_samples empty_instants naive_instants : ValueError

pub data Checked (A : Type 0) : Type 0 where
  ok : A → Checked A
  raise : ValueError → Checked A

-- `timedelta / int` rounds to the nearest microsecond, and a half to the even one.
unfoldable pub divide_and_round : ℕ → ℕ → ℕ
divide_and_round a b =
    let q = a / b in let r = 2 * (a % b) in if ltb b r || (r == b && q % 2 == 1) then q + 1 else q

-- `start + span * step / (count - 1)`, where `span` may be negative.
unfoldable pub sample_at : Instant → Instant → ℕ → ℕ → Instant
unfolding divide_and_round
sample_at start end intervals step =
    if leb start end
    then start + divide_and_round ((end - start) * step) intervals
    else start - divide_and_round ((start - end) * step) intervals

-- The comprehension over `range(count)`, from `step` on, with `left` steps to go.
unfoldable pub samples_from : Instant → Instant → ℕ → ℕ → ℕ → List Instant
unfolding sample_at
samples_from start end intervals step zero = []
samples_from start end intervals step (suc left) =
    sample_at start end intervals step ∷ samples_from start end intervals (step + 1) left

-- `instants[-1] = end`
unfoldable pub set_last : List Instant → Instant → List Instant
set_last [] end = []
set_last (t ∷ []) end = end ∷ []
set_last (t ∷ u ∷ ts) end = t ∷ set_last (u ∷ ts) end

-- `_sample_instants`
unfoldable pub sample_instants : Instant → Instant → ℕ → List Instant
unfolding samples_from set_last
sample_instants start end count = set_last (samples_from start end (count - 1) 0 count) end

infixl 5 ◌>>=◌
abbrev ◌>>=◌ : {A B : Type 0} → Checked A → (A → Checked B) → Checked B
ok a >>= next = next a
raise e >>= next = raise e

abbrev pub aware_at : Instant → Datetime
aware_at t = record { at = t; aware = true }

module _ (sky : Skyfield) where
  open sky use {
    Float, Time, from_datetime, utc_datetime, float_lt, degrees, find_events, elevation, subpoint,
  }

  geodetic_point : (line1 line2 : Str) → Datetime → GeodeticPoint Float
  geodetic_point line1 line2 instant =
      let (latitude, longitude, altitude) = subpoint line1 line2 (from_datetime instant.at) in
      record { at = instant.at; latitude = latitude; longitude = longitude; altitude_km = altitude }

  -- `subpoints` of propagation.py
  unfoldable pub subpoints :
      (line1 line2 : Str) → List Datetime → Checked (List (GeodeticPoint Float))
  unfolding geodetic_point
  subpoints line1 line2 [] = raise empty_instants
  subpoints line1 line2 (t ∷ ts) =
      if any (λ instant. not instant.aware) (t ∷ ts)
      then raise naive_instants
      else ok (map (geodetic_point line1 line2) (t ∷ ts))

  -- `_build_pass`; `utc_datetime` gives aware instants.
  unfoldable pub build_pass :
      (line1 line2 : Str)
      → ObserverSite Float
      → (aos_at : Instant) → (peak_time : Time) → (los_at : Instant) → ℕ
      → Checked (SatellitePass Float)
  unfolding subpoints
  build_pass line1 line2 topos aos_at peak_time los_at track_samples = do
    track ← subpoints line1 line2 (map aware_at (sample_instants aos_at los_at track_samples))
    ok (record {
      aos_at = aos_at;
      los_at = los_at;
      peak_at = utc_datetime peak_time;
      peak_elevation_deg = elevation line1 line2 topos peak_time;
      ground_track = map (λ point. (point.longitude, point.latitude)) track;
    })

  -- The loop of `compute_passes`: the rise and the culmination seen last, and the passes so far.
  unfoldable pub collect_passes :
      (line1 line2 : Str)
      → ObserverSite Float
      → ℕ
      → List (Time × EventCode)
      → Option Instant
      → Option Time
      → List (SatellitePass Float)
      → Checked (List (SatellitePass Float))
  collect_passes line1 line2 topos n [] aos peak passes = ok passes
  collect_passes line1 line2 topos n ((t, rise) ∷ es) aos peak passes =
      collect_passes line1 line2 topos n es (some (utc_datetime t)) none passes
  collect_passes line1 line2 topos n ((t, culminate) ∷ es) none peak passes =
      collect_passes line1 line2 topos n es none peak passes
  collect_passes line1 line2 topos n ((t, culminate) ∷ es) (some a) peak passes =
      collect_passes line1 line2 topos n es (some a) (some t) passes
  collect_passes line1 line2 topos n ((t, set) ∷ es) (some a) (some p) passes =
      build_pass line1 line2 topos a p (utc_datetime t) n >>= λ pass.
      collect_passes line1 line2 topos n es none none (passes ++ pass ∷ [])
  collect_passes line1 line2 topos n ((t, set) ∷ es) (some a) none passes =
      collect_passes line1 line2 topos n es none none passes
  collect_passes line1 line2 topos n ((t, set) ∷ es) none peak passes =
      collect_passes line1 line2 topos n es none none passes
  collect_passes line1 line2 topos n ((t, other) ∷ es) aos peak passes =
      collect_passes line1 line2 topos n es aos peak passes

  -- `compute_passes`
  unfoldable pub compute_passes :
      (line1 line2 : Str)
      → ObserverSite Float
      → (start end : Datetime) → Float
      → ℕ
      → Checked (List (SatellitePass Float))
  unfolding collect_passes
  compute_passes line1 line2 observer start end min_elevation_deg track_samples =
      if not start.aware || not end.aware
      then raise naive_window
      else if leb end.at start.at
      then raise empty_window
      else if not
          (float_lt (degrees 0) min_elevation_deg && float_lt min_elevation_deg (degrees 90))
      then raise bad_elevation
      else if ltb track_samples 2
      then raise few_samples
      else collect_passes line1 line2 observer track_samples
          (find_events line1 line2 observer (from_datetime start.at) (from_datetime end.at)
            min_elevation_deg)
          none none []
