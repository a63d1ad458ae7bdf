-- ===== src/Tracking/Geojson.antt =====
-- GeoJSON of a stored geometry (`wkb_to_geojson` and `_to_lists` of
-- app/tracking/services/geometry.py). shapely's `mapping` is a parameter.
use apsis.Prelude.{
  ℕ, Str, codes, Dict, lookup, insert, Bool, true, false, ◌&&◌, Option, none, some, List, [], ◌∷◌,
  ◌≡◌, refl, sym, ap, ◌∙◌, arith, ltb, length, ◌≤◌, str_eq,
}
use apsis.Tracking.Models.{done}
use apsis.Tracking.Geometry.{Shape, line_string, Geoalchemy, linestring_to_wkb, srid_wgs84}

-- What a dictionary of `mapping` holds: texts, numbers, tuples and lists of such values.
mutual
  pub data Value (Float : Type 0) : Type 0 where
    text : Str → Value Float
    number : Float → Value Float
    tuple_of : Values Float → Value Float
    list_of : Values Float → Value Float

  pub data Values (Float : Type 0) : Type 0 where
    end : Values Float
    item : Value Float → Values Float → Values Float

module _ {Float : Type 0} where
  -- `_to_lists`
  unfoldable mutual
    pub to_lists : Value Float → Value Float
    to_lists (text s) = text s
    to_lists (number x) = number x
    to_lists (tuple_of vs) = list_of (to_lists_each vs)
    to_lists (list_of vs) = list_of (to_lists_each vs)

    pub to_lists_each : Values Float → Values Float
    to_lists_each end = end
    to_lists_each (item v vs) = item (to_lists v) (to_lists_each vs)

  -- A pair of a line's coordinates.
  abbrev pub pair_of : (Values Float → Value Float) → Float × Float → Value Float
  pair_of sequence p = sequence (item (number p.0) (item (number p.1) end))

  abbrev pub coordinates_of : (Values Float → Value Float) → List (Float × Float) → Values Float
  coordinates_of sequence [] = end
  coordinates_of sequence (p ∷ ps) = item (pair_of sequence p) (coordinates_of sequence ps)

  -- Nothing in a value is a tuple.
  unfoldable mutual
    pub has_no_tuple : Value Float → Bool
    has_no_tuple (text s) = true
    has_no_tuple (number x) = true
    has_no_tuple (tuple_of vs) = false
    has_no_tuple (list_of vs) = have_no_tuple vs

    pub have_no_tuple : Values Float → Bool
    have_no_tuple end = true
    have_no_tuple (item v vs) = has_no_tuple v && have_no_tuple vs

  mutual
    unfolding to_lists has_no_tuple

    pub to_lists_lem : (v : Value Float) → has_no_tuple (to_lists v) ≡ true
    to_lists_lem (text s) = refl
    to_lists_lem (number x) = refl
    to_lists_lem (tuple_of vs) = to_lists_each_lem vs
    to_lists_lem (list_of vs) = to_lists_each_lem vs

    to_lists_each_lem : (vs : Values Float) → have_no_tuple (to_lists_each vs) ≡ true
    to_lists_each_lem end = refl
    to_lists_each_lem (item v vs) = rw (to_lists_lem v, to_lists_each_lem vs) refl

  line_to_lists :
      (ps : List (Float × Float))
      → to_lists_each (coordinates_of tuple_of ps) ≡ coordinates_of list_of ps
  unfolding to_lists
  line_to_lists [] = refl
  line_to_lists (p ∷ ps) = ap (item (pair_of list_of p)) (line_to_lists ps)

  -- The assignment to the key "coordinates"; `none` is a KeyError: a mapping without it.
  unfoldable pub with_lists : Dict (Value Float) → Option (Dict (Value Float))
  unfolding to_lists lookup insert
  with_lists geometry = elim (lookup (codes "coordinates") geometry) [
    | none ↦ none
    | some v ↦ some (insert (codes "coordinates") (to_lists v) geometry)
  ]

  -- A line as a dictionary.
  abbrev pub line_mapping : (Values Float → Value Float) → List (Float × Float) → Dict (Value Float)
  line_mapping sequence ps =
      (codes "type", text (codes "LineString"))
      ∷ (codes "coordinates", sequence (coordinates_of sequence ps))
      ∷ []

  with_lists_line :
      (ps : List (Float × Float))
      → with_lists (line_mapping tuple_of ps) ≡ some (line_mapping list_of ps)
  unfolding with_lists lookup insert to_lists str_eq
  with_lists_line ps = rw (line_to_lists ps) refl

unfoldable pub wkb_to_geojson :
    {Float : Type 0} (geo : Geoalchemy Float)
    → (Shape Float → Dict (Value Float))
    → geo.Wkb
    → Option (Dict (Value Float))
unfolding with_lists
wkb_to_geojson geo mapping element = with_lists (mapping (geo.to_shape element))

-- If shapes are read back as they were written and shapely maps a line to its type and a tuple of
-- pairs, a track of two points or more that is written to a geometry is served as a GeoJSON
-- LineString whose coordinates are the list of its points, in order and longitude first, as they were
-- given, with no tuple left.
pub wkb_to_geojson-linestring_to_wkb :
    {Float : Type 0} (geo : Geoalchemy Float) (mapping : Shape Float → Dict (Value Float))
    (ps : List (Float × Float))
    → ((shape : Shape Float) (srid : ℕ) → geo.to_shape (geo.from_shape shape srid) ≡ shape)
    → ((qs : List (Float × Float)) → mapping (line_string qs) ≡ line_mapping tuple_of qs)
    → 2 ≤ length ps
    → (wkb : geo.Wkb) × (linestring_to_wkb geo ps ≡ done wkb)
      × (wkb_to_geojson geo mapping wkb ≡ some (line_mapping list_of ps))
      × (have_no_tuple (coordinates_of list_of ps) ≡ true)
unfolding wkb_to_geojson linestring_to_wkb
wkb_to_geojson-linestring_to_wkb geo mapping ps inverse maps enough =
    let not_few : ltb (length ps) 2 ≡ false = ground arith in
    let lists = line_to_lists ps in
    (
      geo.from_shape (line_string ps) srid_wgs84,
      rw not_few refl,
      ap with_lists (ap mapping (inverse (line_string ps) srid_wgs84) ∙ maps ps)
          ∙ with_lists_line ps,
      ap (λ (vs : Values _). have_no_tuple vs) (sym lists)
          ∙ to_lists_each_lem (coordinates_of tuple_of ps),
    )
