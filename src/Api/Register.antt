-- ===== src/Api/Register.antt =====
-- How a registration ends, for every request.
use apsis.Prelude.{
  ℤ, pos, negsuc, length, leb, Str, str_eq, Bool, true, ◌&&◌, ◌||◌, some, any, ◌==◌, Bool-cases,
  inl, inr, ◌≡◌,
}
use apsis.Database.Select.{any_key, first_where-any}
use apsis.Tracking.Models.{GroundStation, Database, Server}
use apsis.Tracking.Stations.{get_by_name}
use apsis.Api.{Floats, GroundStationCreate}

-- Does the table hold the name, or the UUID that the server generates next?
abbrev pub clashes : {Float Wkb : Type 0} → Server → Str → Database Float Wkb → Bool
clashes {Float} {Wkb} server name db =
    any
      (λ (g : GroundStation Float Wkb).
        g.id == server.gen_random_uuid db.generated || str_eq g.name name)
      db.ground_stations

-- A float that is not a NaN: only a NaN is not at most itself.
abbrev pub IsNumber : (floats : Floats) → floats.Float → Type 0
IsNumber floats x = floats.le x x ≡ true

module _ (floats : Floats) where
  open floats use {Float, le, lt, literal}

  abbrev lies_in : ℤ → ℤ → Float → Bool
  lies_in low high x = le (literal low) x && le x (literal high)

  -- Is the name of 1 to 255 characters, the latitude within 90 degrees, the longitude within 180, and
  -- the altitude from 500 metres below the sea to 100000 above it?
  abbrev pub in_bounds : GroundStationCreate Float → Bool
  in_bounds body =
      leb 1 (length body.name)
      && leb (length body.name) 255
      && lies_in (negsuc 89) (pos 90) body.latitude
      && lies_in (negsuc 179) (pos 180) body.longitude
      && lies_in (negsuc 499) (pos 100000) body.altitude_m

named_clash :
    {Float Wkb : Type 0} (server : Server) (name : Str) (db : Database Float Wkb)
    (g : GroundStation Float Wkb)
    → get_by_name name db.ground_stations ≡ some g
    → clashes server name db ≡ true
unfolding get_by_name
named_clash {Float} {Wkb} server name db g found = elim (Bool-cases (clashes server name db)) [
  | inl clash ↦ clash
  | inr free ↦
      let (new, no_name) =
        any_key (λ (s : GroundStation Float Wkb). s.id) (server.gen_random_uuid db.generated)
          (λ s. str_eq s.name name) db.ground_stations free in
      absurd (
        cc (
          found,
          first_where-any (λ (s : GroundStation Float Wkb). str_eq s.name name) db.ground_stations
              no_name,
        ))
]
