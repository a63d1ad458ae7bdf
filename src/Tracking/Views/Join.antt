-- ===== src/Tracking/Views/Join.antt =====
-- The list of a station's passes as a join of the tables.
use mathlib.Core.List.{Perm}
use apsis.Prelude.{
  Str, Dict, Instant, Uuid, Bool, true, some, List, [], ◌∷◌, All, keep, is_some, Option-cases,
  Bool-cases, inl, inr, ◌≡◌, refl, ◌∙◌, arith,
}
use apsis.Database.{order_by, get_by_id}
use apsis.Database.Pages.{IsOrdered, order_by-Perm, order_by-IsOrdered, order_by-All}
use apsis.Database.Select.{IsKeyed}
use apsis.Database.Keyed.{last_with_id-order_by}
use apsis.Tracking.Models.{Satellite, GroundStation, PassPrediction, Database, done}
use apsis.Tracking.Geometry.{Geoalchemy, Shape}
use apsis.Tracking.Geojson.{Value, wkb_to_geojson}
use apsis.Tracking.Views.{
  PassView, list_satellites, is_shown, by_aos, list_for_ground_station, or_key_error, view_of,
  views_of, get_ground_station_passes,
}

module _ {Float : Type 0} (geo : Geoalchemy Float) (mapping : Shape Float → Dict (Value Float))
    (satellites : List Satellite) where
  -- A view joins a prediction with the row of its satellite.
  pub record IsViewOf (p : PassPrediction Float geo.Wkb) (v : PassView Float) : Type 0 where
    pub satellite : Satellite
    pub its : get_by_id (λ (s : Satellite). s.id) p.satellite_id satellites ≡ some satellite
    pub number : v.satellite_norad_id ≡ satellite.norad_id
    pub name : v.satellite_name ≡ satellite.name
    pub aos : v.aos_at ≡ p.aos_at
    pub los : v.los_at ≡ p.los_at
    pub peak : v.peak_at ≡ p.peak_at
    pub elevation : v.peak_elevation_deg ≡ p.peak_elevation_deg
    pub track : wkb_to_geojson geo mapping p.track ≡ some v.track

  abbrev pub AreViewsOf : List (PassPrediction Float geo.Wkb) → List (PassView Float) → Type 0
  AreViewsOf [] [] = Unit
  AreViewsOf [] (v ∷ vs) = ⊥
  AreViewsOf (p ∷ ps) [] = ⊥
  AreViewsOf (p ∷ ps) (v ∷ vs) = IsViewOf p v × AreViewsOf ps vs

  -- What the foreign key and the column of a prediction promise.
  abbrev pub IsJoinable : PassPrediction Float geo.Wkb → Type 0
  IsJoinable p =
      (is_some (get_by_id (λ (s : Satellite). s.id) p.satellite_id satellites) ≡ true)
      × (is_some (wkb_to_geojson geo mapping p.track) ≡ true)

  module _ (collates : Str → Str → Bool)
      (keyed : IsKeyed (λ (s : Satellite). s.id) satellites) where
    view_of-IsViewOf :
        (p : PassPrediction Float geo.Wkb)
        → IsJoinable p
        → (v : PassView Float) × (view_of geo mapping collates
              (list_satellites collates satellites)
              p
            ≡ done v)
          × IsViewOf p v
    unfolding view_of or_key_error list_satellites
    view_of-IsViewOf p (owned, drawn) =
        elim (Option-cases (get_by_id (λ (s : Satellite). s.id) p.satellite_id satellites)) [
          | inl missing ↦ absurd (cc (rw missing at owned))
          | inr (s, its) ↦ elim (Option-cases (wkb_to_geojson geo mapping p.track)) [
            | inl broken ↦ absurd (cc (rw broken at drawn))
            | inr (track, is_drawn) ↦
                let listed =
                  last_with_id-order_by (λ (s : Satellite). s.id)
                    (λ (s t : Satellite). collates s.name t.name) p.satellite_id satellites keyed
                  ∙ its in
                (
                  record {
                    satellite_norad_id = s.norad_id;
                    satellite_name = s.name;
                    aos_at = p.aos_at;
                    los_at = p.los_at;
                    peak_at = p.peak_at;
                    peak_elevation_deg = p.peak_elevation_deg;
                    track = track;
                  },
                  rw (listed, is_drawn) refl,
                  record {
                    satellite = s;
                    its = its;
                    number = refl;
                    name = refl;
                    aos = refl;
                    los = refl;
                    peak = refl;
                    elevation = refl;
                    track = is_drawn;
                  },
                )
          ]
        ]

    views_of-AreViewsOf :
        (ps : List (PassPrediction Float geo.Wkb))
        → All IsJoinable ps
        → (vs : List (PassView Float)) × (views_of geo mapping collates
              (list_satellites collates satellites)
              ps
            ≡ done vs)
          × AreViewsOf ps vs
    unfolding views_of
    views_of-AreViewsOf [] joinable = ([], refl, tt)
    views_of-AreViewsOf (p ∷ ps) joinable =
        let (v, made, fits) = view_of-IsViewOf p joinable.0 in
        let (vs, all_made, all_fit) = views_of-AreViewsOf ps joinable.1 in
        (v ∷ vs, rw (made, all_made) refl, (fits, all_fit))

keep-All {ℓ κ} :
    {A : Type ℓ} (P : A → Type κ) (p : A → Bool) (xs : List A) → All P xs → All P (keep p xs)
keep-All P p [] h = tt
keep-All P p (x ∷ xs) h = elim (Bool-cases (p x)) [
  | inl holds ↦ rw holds (h.0, keep-All P p xs h.1)
  | inr fails ↦ rw fails (keep-All P p xs h.1)
]

-- If no primary key of the satellites stands twice, every prediction's satellite is there, and every
-- track can be served: a station that is there is answered, whatever the collation, with one view for
-- each of its predictions that begin no sooner than `after`, in the order in which they begin, each
-- joining the prediction with the number and the name of its own satellite.
pub get_ground_station_passes-joins :
    {Float : Type 0} (geo : Geoalchemy Float) (mapping : Shape Float → Dict (Value Float))
    (collates : Str → Str → Bool) (ground_station_id : Uuid) (after : Instant)
    (db : Database Float geo.Wkb)
    → IsKeyed (λ (s : Satellite). s.id) db.satellites
    → All (IsJoinable geo mapping db.satellites) db.pass_predictions
    → is_some
        (get_by_id (λ (g : GroundStation Float geo.Wkb). g.id) ground_station_id db.ground_stations)
      ≡ true
    → (ps : List (PassPrediction Float geo.Wkb)) × (vs : List (PassView Float))
      × (get_ground_station_passes geo mapping collates ground_station_id after db ≡ done vs)
      × AreViewsOf geo mapping db.satellites ps vs
      × Perm ps (keep (is_shown ground_station_id after) db.pass_predictions)
      × IsOrdered by_aos ps
unfolding get_ground_station_passes list_for_ground_station
get_ground_station_passes-joins {Float} geo mapping collates ground_station_id after db keyed
      joinable there =
    let kept = keep (is_shown ground_station_id after) db.pass_predictions in
    let (vs, made, fits) =
      views_of-AreViewsOf geo mapping db.satellites collates keyed (order_by by_aos kept) (
        order_by-All by_aos (IsJoinable geo mapping db.satellites) kept (
          keep-All (IsJoinable geo mapping db.satellites) (is_shown ground_station_id after)
            db.pass_predictions joinable)) in
    elim (Option-cases (
      get_by_id (λ (g : GroundStation Float geo.Wkb). g.id) ground_station_id db.ground_stations)) [
        | inl missing ↦ absurd (cc (rw missing at there))
        | inr (g, found) ↦ (
          order_by by_aos kept,
          vs,
          rw (found, get_ground_station_passes) made,
          fits,
          order_by-Perm by_aos kept,
          order_by-IsOrdered by_aos (λ p q. ground arith) (λ p q r. ground arith) kept,
        )
      ]
