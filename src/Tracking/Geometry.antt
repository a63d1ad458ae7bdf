-- ===== src/Tracking/Geometry.antt =====
-- Conversions between coordinates and geometries (app/tracking/services/geometry.py). shapely and
-- geoalchemy2 are parameters.
use apsis.Prelude.{ℕ, Option, none, some, List, length, ltb, if◌then◌else◌, ◌≡◌, refl}
use apsis.Tracking.Models.{Attempt, done, raised, value_error}

-- `SRID_WGS84`
abbrev pub srid_wgs84 : ℕ
srid_wgs84 = 4326

-- shapely's `Point` and `LineString`, by the pairs (x, y).
pub data Shape (Float : Type 0) : Type 0 where
  point : (x y : Float) → Shape Float
  line_string : List (Float × Float) → Shape Float

-- geoalchemy2: a shape with a reference system as WKBElement, and back.
pub record Geoalchemy (Float : Type 0) : Type 1 where
  pub Wkb : Type 0
  pub from_shape : Shape Float → (srid : ℕ) → Wkb
  pub to_shape : Wkb → Shape Float

module _ {Float : Type 0} (geo : Geoalchemy Float) where
  unfoldable pub point_to_wkb : (latitude longitude : Float) → geo.Wkb
  point_to_wkb latitude longitude = geo.from_shape (point longitude latitude) srid_wgs84

  unfoldable pub linestring_to_wkb : List (Float × Float) → Attempt geo.Wkb
  linestring_to_wkb points =
      if ltb (length points) 2
      then raised value_error
      else done (geo.from_shape (line_string points) srid_wgs84)

  -- `none`: a shape without `x`, an AttributeError.
  unfoldable pub lonlat_of : Shape Float → Option (Float × Float)
  lonlat_of (point x y) = some (x, y)
  lonlat_of (line_string points) = none

  unfoldable pub wkb_to_lonlat : geo.Wkb → Option (Float × Float)
  unfolding lonlat_of
  wkb_to_lonlat element = lonlat_of (geo.to_shape element)

  -- The point of a written position is read back longitude first.
  pub wkb_to_lonlat-point_to_wkb :
      (latitude longitude : Float)
      → ((shape : Shape Float) (srid : ℕ) → geo.to_shape (geo.from_shape shape srid) ≡ shape)
      → wkb_to_lonlat (point_to_wkb latitude longitude) ≡ some (longitude, latitude)
  unfolding wkb_to_lonlat point_to_wkb lonlat_of
  wkb_to_lonlat-point_to_wkb latitude longitude inverse =
      rw (inverse (point longitude latitude) srid_wgs84) refl
