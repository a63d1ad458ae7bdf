-- ===== src/Api/Passes.antt =====
-- How a request for the passes of a station ends.
use mathlib.Core.List.{Perm}
use apsis.Prelude.{
  suc, Str, codes, Dict, Instant, Uuid, Bool, true, Option, none, List, [], ◌∷◌, ◌++◌, All, keep,
  length, is_some, Option-cases, inl, inr, ◌≡◌, refl, ap,
}
use apsis.Database.{get_by_id}
use apsis.Database.Pages.{IsOrdered}
use apsis.Database.Select.{IsKeyed}
use apsis.Tracking.Models.{Satellite, GroundStation, PassPrediction, Database, raised, not_found}
use apsis.Tracking.Geometry.{Geoalchemy, Shape}
use apsis.Tracking.Geojson.{Value}
use apsis.Tracking.Views.{PassView, is_shown, by_aos, get_ground_station_passes}
use apsis.Tracking.Views.Join.{IsJoinable, AreViewsOf, get_ground_station_passes-joins}
use apsis.Errors.{
  answered, refused, uuid_str, respond, respond_domain, new_not_found_error, new_error, status_code,
  code, in_session,
}
use apsis.Api.{or_now, get_passes}

-- As many views as predictions.
AreViewsOf-length :
    {Float : Type 0} (geo : Geoalchemy Float) (mapping : Shape Float → Dict (Value Float))
    (satellites : List Satellite) (ps : List (PassPrediction Float geo.Wkb))
    (vs : List (PassView Float))
    → AreViewsOf geo mapping satellites ps vs
    → length vs ≡ length ps
AreViewsOf-length geo mapping satellites [] [] h = refl
AreViewsOf-length geo mapping satellites [] (v ∷ vs) h = absurd h
AreViewsOf-length geo mapping satellites (p ∷ ps) [] h = absurd h
AreViewsOf-length geo mapping satellites (p ∷ ps) (v ∷ vs) h =
    ap suc (AreViewsOf-length geo mapping satellites ps vs h.1)

no_station :
    {Float : Type 0} (geo : Geoalchemy Float) (mapping : Shape Float → Dict (Value Float))
    (collates : Str → Str → Bool) (ground_station_id : Uuid) (after : Instant)
    (db : Database Float geo.Wkb)
    → get_by_id (λ (g : GroundStation Float geo.Wkb). g.id) ground_station_id db.ground_stations
      ≡ none
    → get_ground_station_passes geo mapping collates ground_station_id after db
      ≡ raised (not_found (codes "GroundStation") ground_station_id)
unfolding get_ground_station_passes
no_station geo mapping collates ground_station_id after db missing =
    rw (missing, get_ground_station_passes) refl

not_found_response :
    {B : Type 0} (i : Uuid)
    → respond {B = B} (not_found (codes "GroundStation") i)
      ≡ refused 404
          (codes "GroundStation not found (id: " ++ (uuid_str i ++ codes ")"))
          (codes "not_found")
unfolding respond respond_domain new_not_found_error new_error status_code code
not_found_response i = refl

-- If no primary key of the satellites stands twice, every prediction's satellite is there, and every
-- track can be served, a request for a station's passes changes no table; with a station that is
-- not there it ends with status 404, the code not_found and a detail that names the UUID; with one that is
-- there it ends with status 200 and with a view for each of its predictions from `after` on (from
-- the clock's reading on, if it is left out), in the order in which they begin, and their number.
pub get_passes_lem :
    {Float : Type 0} (geo : Geoalchemy Float) (mapping : Shape Float → Dict (Value Float))
    (collates : Str → Str → Bool) (ground_station_id : Uuid) (after : Option Instant)
    (now : Instant) (db : Database Float geo.Wkb)
    → IsKeyed (λ (s : Satellite). s.id) db.satellites
    → All (IsJoinable geo mapping db.satellites) db.pass_predictions
    → let (r, db') = get_passes geo mapping collates ground_station_id after now db in
      let station =
        get_by_id
          (λ (g : GroundStation Float geo.Wkb). g.id)
          ground_station_id
          db.ground_stations in
      (db' ≡ db)
      × (station ≡ none
          → r
            ≡ refused 404
                (codes "GroundStation not found (id: " ++ (uuid_str ground_station_id ++ codes ")"))
                (codes "not_found"))
      × (is_some station ≡ true
          → (ps : List (PassPrediction Float geo.Wkb)) × (vs : List (PassView Float)) × (r
              ≡ answered 200 (record { items = vs; total = length ps }))
            × AreViewsOf geo mapping db.satellites ps vs
            × Perm ps (keep (is_shown ground_station_id (or_now after now)) db.pass_predictions)
            × IsOrdered by_aos ps)
unfolding get_passes in_session
get_passes_lem {Float} geo mapping collates ground_station_id after now db keyed joinable =
    elim (Option-cases (
      get_by_id (λ (g : GroundStation Float geo.Wkb). g.id) ground_station_id db.ground_stations)) [
        | inl missing ↦
            rw (no_station geo mapping collates ground_station_id (or_now after now) db missing) (
              refl,
              λ h. not_found_response ground_station_id,
              λ there. absurd (cc (rw missing at there)),
            )
        | inr (g, found) ↦
            let station =
              get_by_id (λ (g : GroundStation Float geo.Wkb). g.id) ground_station_id
                db.ground_stations in
            let there : is_some station ≡ true = rw found refl in
            let (ps, vs, made, fits, same, ordered) =
              get_ground_station_passes-joins geo mapping collates ground_station_id
                (or_now after now) db keyed joinable there in
            rw made (
              refl,
              λ missing. absurd (cc (found, missing)),
              λ h. (
                ps,
                vs,
                ap (λ n. answered 200 (record { items = vs; total = n }))
                    (AreViewsOf-length geo mapping db.satellites ps vs fits),
                fits,
                same,
                ordered,
              ),
            )
      ]
