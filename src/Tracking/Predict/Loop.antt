-- ===== src/Tracking/Predict/Loop.antt =====
-- The loop that adds the predicted passes of a pair.
use mathlib.Core.List.{append_assoc, append-nil}
use apsis.Prelude.{
  ℕ, ◌+◌, ◌≤◌, Uuid, Bool, true, false, ◌&&◌, ◌||◌, Option, none, some, List, [], ◌∷◌, ◌++◌, any,
  All, length, ltb, is_some, ◌==◌, ◌≡◌, ◌≢◌, refl, ◌∙◌, ap, arith,
}
use apsis.Database.{get_by_id, delete_where}
use apsis.Database.Select.{append_new, no_clash, any-append, any-delete_where}
use apsis.Tracking.Models.{
  Satellite, GroundStation, PassPrediction, Database, Server, Attempt, done,
}
use apsis.Tracking.Geometry.{Geoalchemy, line_string, srid_wgs84, linestring_to_wkb}
use apsis.Tracking.Passes.{SatellitePass, Skyfield}
use apsis.Tracking.Predict.{is_of_pair, create_prediction, create_predictions}

and_false : (b : Bool) → (b && false || false) ≡ false
and_false true = refl
and_false false = refl

-- No two passes begin at once.
abbrev pub AosDiffer : {Float : Type 0} → List (SatellitePass Float) → Type 0
AosDiffer [] = Unit
AosDiffer {Float} (p ∷ ps) =
    All (λ (q : SatellitePass Float). p.aos_at ≢ q.aos_at) ps × AosDiffer ps

-- The UUIDs to come are no prediction's key.
abbrev pub HasFreshIds : {Float Wkb : Type 0} → Server → Database Float Wkb → Type 0
HasFreshIds {Float} {Wkb} server db =
    (k : ℕ)
    → db.generated ≤ k
    → All (λ (p : PassPrediction Float Wkb). p.id ≢ server.gen_random_uuid k) db.pass_predictions

module _ {Float : Type 0} (geo : Geoalchemy Float) (satellite_id ground_station_id : Uuid) where
  -- The row of a pass.
  pub record IsRowOf (sat_pass : SatellitePass Float) (row : PassPrediction Float geo.Wkb)
      : Type 0 where
    pub satellite : row.satellite_id ≡ satellite_id
    pub station : row.ground_station_id ≡ ground_station_id
    pub aos : row.aos_at ≡ sat_pass.aos_at
    pub los : row.los_at ≡ sat_pass.los_at
    pub peak : row.peak_at ≡ sat_pass.peak_at
    pub elevation : row.peak_elevation_deg ≡ sat_pass.peak_elevation_deg
    pub track : row.track ≡ geo.from_shape (line_string sat_pass.ground_track) srid_wgs84

  abbrev pub AreRowsOf : List (SatellitePass Float) → List (PassPrediction Float geo.Wkb) → Type 0
  AreRowsOf [] [] = Unit
  AreRowsOf [] (row ∷ rows) = ⊥
  AreRowsOf (p ∷ ps) [] = ⊥
  AreRowsOf (p ∷ ps) (row ∷ rows) = IsRowOf p row × AreRowsOf ps rows

module _ {Float : Type 0} (geo : Geoalchemy Float) (server : Server)
    (satellite_id ground_station_id : Uuid)
    (never_again : (i j : ℕ) → server.gen_random_uuid i ≡ server.gen_random_uuid j → i ≡ j) where
  -- No prediction of the pair begins with the pass.
  abbrev pub IsOpen : List (PassPrediction Float geo.Wkb) → SatellitePass Float → Type 0
  IsOpen rows q =
      any
        (λ (p : PassPrediction Float geo.Wkb).
          is_of_pair satellite_id ground_station_id p && p.aos_at == q.aos_at)
        rows
      ≡ false

  abbrev pub HasOwners : Database Float geo.Wkb → Type 0
  HasOwners db =
      (is_some (get_by_id (λ (s : Satellite). s.id) satellite_id db.satellites) ≡ true)
      × (is_some (
            get_by_id (λ (g : GroundStation Float geo.Wkb). g.id) ground_station_id
              db.ground_stations)
          ≡ true)

  -- A created prediction.
  record Created (q : SatellitePass Float) (track : geo.Wkb) (db : Database Float geo.Wkb)
      : Type 0 where
    pub row : PassPrediction Float geo.Wkb
    pub db' : Database Float geo.Wkb
    pub made : create_prediction server satellite_id ground_station_id q track db ≡ done db'
    pub fits :
        (track ≡ geo.from_shape (line_string q.ground_track) srid_wgs84)
        → IsRowOf geo satellite_id ground_station_id q row
    pub rows : db'.pass_predictions ≡ db.pass_predictions ++ row ∷ []
    pub satellites : db'.satellites ≡ db.satellites
    pub stations : db'.ground_stations ≡ db.ground_stations
    pub events : db'.outbox_events ≡ db.outbox_events
    pub fresh : HasFreshIds server db'

  create :
      (q : SatellitePass Float) (track : geo.Wkb) (db : Database Float geo.Wkb)
      → HasFreshIds server db
      → HasOwners db
      → IsOpen db.pass_predictions q
      → Created q track db
  unfolding create_prediction
  create q track db fresh owners free =
      let id = server.gen_random_uuid db.generated in
      let row : PassPrediction Float geo.Wkb = record {
        id = id;
        satellite_id = satellite_id;
        ground_station_id = ground_station_id;
        aos_at = q.aos_at;
        los_at = q.los_at;
        peak_at = q.peak_at;
        peak_elevation_deg = q.peak_elevation_deg;
        track = track;
        created_at = server.now;
        updated_at = none;
      } in
      let free_all =
        no_clash (λ (p : PassPrediction Float geo.Wkb). p.id) id
          (λ p. is_of_pair satellite_id ground_station_id p && p.aos_at == q.aos_at)
          db.pass_predictions (fresh db.generated (omega arith)) free in
      record {
        row = row;
        db' = record db {
          pass_predictions = db.pass_predictions ++ row ∷ [];
          generated = db.generated + 1;
        };
        made = rw (free_all, owners.0, owners.1) refl;
        fits = λ drawn. record {
          satellite = refl;
          station = refl;
          aos = refl;
          los = refl;
          peak = refl;
          elevation = refl;
          track = drawn;
        };
        rows = refl;
        satellites = refl;
        stations = refl;
        events = refl;
        fresh = λ k later.
            append_new (λ (p : PassPrediction Float geo.Wkb). p.id) (server.gen_random_uuid k)
              db.pass_predictions row (fresh k (omega arith))
              (λ same. absurd (omega (arith, never_again db.generated k same)));
      }

  -- The other passes stay open.
  still-IsOpen :
      (q : SatellitePass Float) (ps : List (SatellitePass Float))
      (rows : List (PassPrediction Float geo.Wkb)) (row : PassPrediction Float geo.Wkb)
      → row.aos_at ≡ q.aos_at
      → All (λ (p : SatellitePass Float). q.aos_at ≢ p.aos_at) ps
      → All (IsOpen rows) ps
      → All (IsOpen (rows ++ row ∷ [])) ps
  still-IsOpen q [] rows row same differ free = tt
  still-IsOpen q (p ∷ ps) rows row same differ free =
      let other : (row.aos_at == p.aos_at) ≡ false = rw same (ground (arith, differ.0)) in
      (
        any-append
              (λ (x : PassPrediction Float geo.Wkb).
                is_of_pair satellite_id ground_station_id x && x.aos_at == p.aos_at)
              rows (row ∷ [])
            ∙ rw (free.0, other) (and_false (is_of_pair satellite_id ground_station_id row)),
        still-IsOpen q ps rows row same differ.1 free.1,
      )

  -- What the loop adds.
  pub record Added (ps : List (SatellitePass Float)) (db : Database Float geo.Wkb)
      (result : Attempt (Database Float geo.Wkb)) : Type 0 where
    pub new : List (PassPrediction Float geo.Wkb)
    pub db' : Database Float geo.Wkb
    pub made : result ≡ done db'
    pub fits : AreRowsOf geo satellite_id ground_station_id ps new
    pub rows : db'.pass_predictions ≡ db.pass_predictions ++ new
    pub satellites : db'.satellites ≡ db.satellites
    pub stations : db'.ground_stations ≡ db.ground_stations
    pub events : db'.outbox_events ≡ db.outbox_events
    pub fresh : HasFreshIds server db'

module _ (sky : Skyfield) (geo : Geoalchemy sky.Float) (server : Server)
    (satellite_id ground_station_id : Uuid)
    (never_again : (i j : ℕ) → server.gen_random_uuid i ≡ server.gen_random_uuid j → i ≡ j) where
  pub add :
      (ps : List (SatellitePass sky.Float)) (db : Database sky.Float geo.Wkb)
      → HasFreshIds server db
      → HasOwners geo server satellite_id ground_station_id never_again db
      → AosDiffer ps
      → All (λ (p : SatellitePass sky.Float). 2 ≤ length p.ground_track) ps
      → All (IsOpen geo server satellite_id ground_station_id never_again db.pass_predictions) ps
      → Added geo server satellite_id ground_station_id never_again ps db
          (create_predictions sky geo server satellite_id ground_station_id ps db)
  unfolding create_predictions linestring_to_wkb
  add [] db fresh owners differ tracks free = record {
    new = [];
    db' = db;
    made = refl;
    fits = tt;
    rows = rw append-nil refl;
    satellites = refl;
    stations = refl;
    events = refl;
    fresh = fresh;
  }
  add (q ∷ ps) db fresh owners differ tracks free =
      let enough : ltb (length q.ground_track) 2 ≡ false = ground (arith, tracks.0) in
      let track = geo.from_shape (line_string q.ground_track) srid_wgs84 in
      let c =
        create geo server satellite_id ground_station_id never_again q track db fresh owners
          free.0 in
      let is_row = c.fits refl in
      let rest =
        add ps c.db' c.fresh (rw c.satellites owners.0, rw c.stations owners.1) differ.1 tracks.1
          (rw c.rows (
            still-IsOpen geo server satellite_id ground_station_id never_again q ps
              db.pass_predictions c.row is_row.aos differ.0 free.1)) in
      record {
        new = c.row ∷ rest.new;
        db' = rest.db';
        made = rw (enough, c.made) rest.made;
        fits = (is_row, rest.fits);
        rows =
            rest.rows
            ∙ ap (λ rs. rs ++ rest.new) c.rows
            ∙ append_assoc db.pass_predictions (c.row ∷ []) rest.new;
        satellites = rest.satellites ∙ c.satellites;
        stations = rest.stations ∙ c.stations;
        events = rest.events ∙ c.events;
        fresh = rest.fresh;
      }

pub is_some_of : {A : Type 0} {o : Option A} {a : A} → o ≡ some a → is_some o ≡ true
is_some_of h = rw h refl

pub after_delete :
    {Float Wkb : Type 0} (satellite_id ground_station_id : Uuid) (ps : List (SatellitePass Float))
    (rows : List (PassPrediction Float Wkb))
    → All
        (λ (q : SatellitePass Float).
          any
            (λ (p : PassPrediction Float Wkb).
              is_of_pair satellite_id ground_station_id p && p.aos_at == q.aos_at)
            (delete_where (is_of_pair satellite_id ground_station_id) rows)
          ≡ false)
        ps
after_delete satellite_id ground_station_id [] rows = tt
after_delete satellite_id ground_station_id (q ∷ ps) rows = (
  any-delete_where (is_of_pair satellite_id ground_station_id) (λ p. p.aos_at == q.aos_at) rows,
  after_delete satellite_id ground_station_id ps rows,
)
