-- ===== src/Tracking/Passes/Detection.antt =====
-- Which passes `compute_passes` finds in the events of a window.
use mathlib.Core.List.{append_assoc, append-nil}
use apsis.Prelude.{
  ℕ, suc, ◌≤◌, ◌<◌, Str, Instant, true, false, not, none, List, [], ◌∷◌, ◌++◌, map, any, length,
  ◌≡◌, refl, ◌∙◌, ap, arith, leb, ltb,
}
use apsis.Tracking.Passes.{
  Datetime, EventCode, rise, culminate, set, ObserverSite, SatellitePass, Skyfield, Checked, ok,
  sample_instants, build_pass, subpoints, collect_passes, compute_passes, aware_at, geodetic_point,
  GeodeticPoint,
}
use apsis.Tracking.Passes.Sampling.{length-sample_instants}

-- A pass by its three times.
pub record Contact (Time : Type 0) : Type 0 where
  pub aos : Time
  pub peak : Time
  pub los : Time

-- The events of some complete passes, one after the other.
unfoldable pub contact_events : {Time : Type 0} → List (Contact Time) → List (Time × EventCode)
contact_events [] = []
contact_events (c ∷ cs) = (c.aos, rise) ∷ (c.peak, culminate) ∷ (c.los, set) ∷ contact_events cs

-- What a window cuts off at its start: the end of a pass that began before it.
pub data Head (Time : Type 0) : Type 0 where
  whole : Head Time
  fallen : Time → Head Time
  peaked : Time → Time → Head Time

unfoldable pub head_events : {Time : Type 0} → Head Time → List (Time × EventCode)
head_events whole = []
head_events (fallen los) = (los, set) ∷ []
head_events (peaked peak los) = (peak, culminate) ∷ (los, set) ∷ []

-- What it cuts off at its end: the beginning of a pass that ends after it.
pub data Tail (Time : Type 0) : Type 0 where
  done : Tail Time
  risen : Time → Tail Time
  climbing : Time → Time → Tail Time

unfoldable pub tail_events : {Time : Type 0} → Tail Time → List (Time × EventCode)
tail_events done = []
tail_events (risen aos) = (aos, rise) ∷ []
tail_events (climbing aos peak) = (aos, rise) ∷ (peak, culminate) ∷ []

any-not_aware : (ts : List Instant) → any (λ (t : Datetime). not t.aware) (map aware_at ts) ≡ false
any-not_aware [] = refl
any-not_aware (t ∷ ts) = any-not_aware ts

-- Aware instants are propagated one by one, if there is one.
subpoints_aware :
    (sky : Skyfield) (line1 line2 : Str) (ts : List Instant)
    → 0 < length ts
    → subpoints sky line1 line2 (map aware_at ts)
      ≡ ok (map (geodetic_point sky line1 line2) (map aware_at ts))
unfolding subpoints
subpoints_aware sky line1 line2 [] h = absurd (omega arith)
subpoints_aware sky line1 line2 (t ∷ ts) h = rw (any-not_aware ts)

length-map {ℓ κ} :
    {A : Type ℓ} {B : Type κ} (f : A → B) (xs : List A) → length (map f xs) ≡ length xs
length-map f [] = refl
length-map f (x ∷ xs) = ap suc (length-map f xs)

-- The point below the satellite at an instant, longitude first.
abbrev lonlat : (sky : Skyfield) → Str → Str → Instant → sky.Float × sky.Float
lonlat sky line1 line2 t =
    let (latitude, longitude, altitude) = sky.subpoint line1 line2 (sky.from_datetime t) in
    (longitude, latitude)

module _ (sky : Skyfield) (line1 line2 : Str) (topos : ObserverSite sky.Float) (n : ℕ) where
  -- The pass that is built from a contact.
  pub record IsPassOf (c : Contact sky.Time) (p : SatellitePass sky.Float) : Type 0 where
    pub aos : p.aos_at ≡ sky.utc_datetime c.aos
    pub peak : p.peak_at ≡ sky.utc_datetime c.peak
    pub los : p.los_at ≡ sky.utc_datetime c.los
    pub elevation : p.peak_elevation_deg ≡ sky.elevation line1 line2 topos c.peak
    pub track :
        p.ground_track
        ≡ map
            (lonlat sky line1 line2)
            (sample_instants (sky.utc_datetime c.aos) (sky.utc_datetime c.los) n)
    pub many : length p.ground_track ≡ n

  abbrev pub ArePassesOf : List (Contact sky.Time) → List (SatellitePass sky.Float) → Type 0
  ArePassesOf [] [] = Unit
  ArePassesOf [] (p ∷ ps) = ⊥
  ArePassesOf (c ∷ cs) [] = ⊥
  ArePassesOf (c ∷ cs) (p ∷ ps) = IsPassOf c p × ArePassesOf cs ps

module _ (sky : Skyfield) (line1 line2 : Str) (topos : ObserverSite sky.Float) (n : ℕ)
    (enough : 2 ≤ n) where
  abbrev IsPass : Contact sky.Time → SatellitePass sky.Float → Type 0
  IsPass c p = IsPassOf sky line1 line2 topos n c p

  abbrev ArePasses : List (Contact sky.Time) → List (SatellitePass sky.Float) → Type 0
  ArePasses cs ps = ArePassesOf sky line1 line2 topos n cs ps

  map_points :
      (ts : List Instant)
      → map
          (λ (point : GeodeticPoint sky.Float). (point.longitude, point.latitude))
          (map (geodetic_point sky line1 line2) (map aware_at ts))
        ≡ map (lonlat sky line1 line2) ts
  unfolding geodetic_point
  map_points [] = refl
  map_points (t ∷ ts) = ap (λ ps. lonlat sky line1 line2 t ∷ ps) (map_points ts)

  build_pass-IsPassOf :
      (c : Contact sky.Time)
      → (p : SatellitePass sky.Float) × (build_pass sky line1 line2 topos
            (sky.utc_datetime c.aos)
            c.peak
            (sky.utc_datetime c.los)
            n
          ≡ ok p)
        × IsPass c p
  unfolding build_pass subpoints
  build_pass-IsPassOf c =
      let instants = sample_instants (sky.utc_datetime c.aos) (sky.utc_datetime c.los) n in
      let many : length instants ≡ n =
        length-sample_instants (sky.utc_datetime c.aos) (sky.utc_datetime c.los) n in
      (
        record {
          aos_at = sky.utc_datetime c.aos;
          los_at = sky.utc_datetime c.los;
          peak_at = sky.utc_datetime c.peak;
          peak_elevation_deg = sky.elevation line1 line2 topos c.peak;
          ground_track =
              map (λ point. (point.longitude, point.latitude))
                (map (geodetic_point sky line1 line2) (map aware_at instants));
        },
        rw (subpoints_aware sky line1 line2 instants (omega arith)),
        record {
          aos = refl;
          peak = refl;
          los = refl;
          elevation = refl;
          track = map_points instants;
          many =
              ap length (map_points instants)
              ∙ length-map (lonlat sky line1 line2) instants
              ∙ length-sample_instants (sky.utc_datetime c.aos) (sky.utc_datetime c.los) n;
        },
      )

  abbrev collect :
      List (sky.Time × EventCode)
      → List (SatellitePass sky.Float)
      → Checked (List (SatellitePass sky.Float))
  collect es passes = collect_passes sky line1 line2 topos n es none none passes

  collect-head :
      (h : Head sky.Time) (es : List (sky.Time × EventCode))
      (passes : List (SatellitePass sky.Float))
      → collect (head_events h ++ es) passes ≡ collect es passes
  unfolding collect_passes head_events
  collect-head whole es passes = refl
  collect-head (fallen los) es passes = refl
  collect-head (peaked peak los) es passes = refl

  collect-tail :
      (t : Tail sky.Time) (passes : List (SatellitePass sky.Float))
      → collect (tail_events t) passes ≡ ok passes
  unfolding collect_passes tail_events
  collect-tail done passes = refl
  collect-tail (risen aos) passes = refl
  collect-tail (climbing aos peak) passes = refl

  collect-contacts :
      (cs : List (Contact sky.Time)) (es : List (sky.Time × EventCode))
      (passes : List (SatellitePass sky.Float))
      → (ps : List (SatellitePass sky.Float)) × (collect (contact_events cs ++ es) passes
          ≡ collect es (passes ++ ps))
        × ArePasses cs ps
  unfolding collect_passes contact_events
  collect-contacts [] es passes = ([], rw append-nil, tt)
  collect-contacts (c ∷ cs) es passes =
      let (p, built, fits) = build_pass-IsPassOf c in
      let (ps, rest, all_fit) = collect-contacts cs es (passes ++ p ∷ []) in
      (
        p ∷ ps,
        rw built (rest ∙ ap (λ qs. collect es qs) (append_assoc passes (p ∷ []) ps)),
        (fits, all_fit),
      )

  collect_all :
      (h : Head sky.Time) (cs : List (Contact sky.Time)) (t : Tail sky.Time)
      → (ps : List (SatellitePass sky.Float)) × (collect
            (head_events h ++ (contact_events cs ++ tail_events t))
            []
          ≡ ok ps)
        × ArePasses cs ps
  collect_all h cs t =
      let (ps, found, fits) = collect-contacts cs (tail_events t) [] in
      (ps, collect-head h (contact_events cs ++ tail_events t) [] ∙ found ∙ collect-tail t ps, fits)

-- In a window with time zones that is not empty, with a minimal elevation between 0 and 90 degrees
-- and at least two samples for a track: when the events of the window are those of some whole
-- passes, after the end of a pass that the window cuts off and before the beginning of another
-- (either may be missing), compute_passes returns one pass for each whole pass and none for those
-- cut off, in order, each with the instants (utc_datetime) of its rise, culmination and set, the elevation at the
-- culmination, and as its ground track the points (longitude, latitude) below the satellite at the
-- sampled instants, of the number that is asked for.
pub compute_passes-eq-ok :
    (sky : Skyfield) (line1 line2 : Str) (observer : ObserverSite sky.Float) (start end : Datetime)
    (min_elevation_deg : sky.Float) (n : ℕ) (h : Head sky.Time) (cs : List (Contact sky.Time))
    (t : Tail sky.Time)
    → start.aware ≡ true
    → end.aware ≡ true
    → start.at < end.at
    → sky.float_lt (sky.degrees 0) min_elevation_deg ≡ true
    → sky.float_lt min_elevation_deg (sky.degrees 90) ≡ true
    → 2 ≤ n
    → sky.find_events line1 line2 observer
        (sky.from_datetime start.at)
        (sky.from_datetime end.at)
        min_elevation_deg
      ≡ head_events h ++ (contact_events cs ++ tail_events t)
    → (ps : List (SatellitePass sky.Float)) × (compute_passes sky line1 line2 observer start end
          min_elevation_deg n
        ≡ ok ps)
      × ArePassesOf sky line1 line2 observer n cs ps
unfolding compute_passes
compute_passes-eq-ok sky line1 line2 observer start end min n h cs t start_aware end_aware window
      low high enough events =
    let (ps, found, fits) = collect_all sky line1 line2 observer n enough h cs t in
    let not_empty : leb end.at start.at ≡ false = ground arith in
    let not_few : ltb n 2 ≡ false = ground arith in
    (ps, rw (start_aware, end_aware, not_empty, low, high, not_few, events) found, fits)
