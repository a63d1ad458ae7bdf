-- ===== src/Tests/Passes.antt =====
-- The pass detector at concrete inputs: floats are numbers, a time counts tenths of an
-- instant, and the events of the window are given.
use apsis.Prelude.{ℕ, ◌+◌, ◌*◌, ◌/◌, Instant, ltb, List, [], ◌∷◌, ◌++◌, ◌≡◌, refl, arith, length}
use apsis.Tracking.Passes.{
  EventCode, ObserverSite, Skyfield, SatellitePass, ok, sample_instants, compute_passes, aware_at,
}
use apsis.Tracking.Passes.Sampling.{sample_instants-Climbs, Climbs, last_or}
use apsis.Tracking.Passes.Detection.{
  Contact, contact_events, fallen, risen, head_events, tail_events, ArePassesOf,
  compute_passes-eq-ok,
}

abbrev contacts : List (Contact ℕ)
contacts =
    record { aos = 104; peak = 131; los = 172 } ∷ record { aos = 300; peak = 359; los = 400 } ∷ []

abbrev window_events : List (Instant × EventCode)
window_events = head_events (fallen 43) ++ (contact_events contacts ++ tail_events (risen 556))

abbrev sky : Skyfield
sky = record {
  Float = ℕ;
  Time = ℕ;
  from_datetime = λ t. t * 10;
  utc_datetime = λ t. t / 10;
  float_lt = ltb;
  degrees = λ d. d;
  find_events = λ line1 line2 observer start end least. window_events;
  elevation = λ line1 line2 observer t. t + 20;
  subpoint = λ line1 line2 t. (t, t + 1, 400);
}

abbrev madrid : ObserverSite ℕ
madrid = record { latitude = 40; longitude = 3; elevation_m = 600 }

compute_passes-eq-ok_example :
    (ps : List (SatellitePass ℕ)) × (compute_passes sky [] [] madrid (aware_at 1) (aware_at 60) 10 5
      ≡ ok ps)
    × ArePassesOf sky [] [] madrid 5 contacts ps
compute_passes-eq-ok_example =
    compute_passes-eq-ok sky [] [] madrid (aware_at 1) (aware_at 60) 10 5 (fallen 43) contacts
      (risen 556) refl refl (omega arith) refl refl (omega arith) refl

sample_instants-Climbs_example :
    (ts : List Instant) × (sample_instants 10 17 5 ≡ 10 ∷ ts)
    × (length (10 ∷ ts) ≡ 5)
    × (last_or 10 ts ≡ 17)
    × Climbs 10 ts 17
sample_instants-Climbs_example = sample_instants-Climbs 10 17 5 (omega arith) (omega arith)
