-- ===== src/Tests/Celestrak.antt =====
-- The CelesTrak driver at concrete inputs.
use apsis.Prelude.{
  Str, codes, ◌*◌, ◌<◌, strip, lstrip, rstrip, str_eq, splitlines, is_space, is_line_break,
  starts_with, some, [], ◌∷◌, length, All, ◌≡◌, ◌≢◌, ◌↔◌, refl,
}
use apsis.Celestrak.Types.{TleRecord, ok, uncaught, too_many_redirects}
use apsis.Celestrak.Client.{
  response, httpx_error, not_found_body, get, solid_lines, parse_records, fetch_by_catalog_id,
}
use apsis.Celestrak.Client.Status.{get-eq-ok}
use apsis.Celestrak.Client.Nonempty.{IsTle, Ends, parse_records_ok, fetch_by_catalog_id-in_range}
use apsis.Celestrak.Client.RoundTrip.{served, IsServable, parse_records-served}

abbrev iss : TleRecord
iss = record {
  name = codes "ISS (ZARYA)";
  line1 = codes "1 25544U 98067A";
  line2 = codes "2 25544  51.6416";
}

iss-IsServable : IsServable iss
unfolding is_line_break is_space starts_with
iss-IsServable = record {
  one_name = refl;
  solid_name = refl;
  name_left = unfold lstrip in refl;
  name_right = unfold rstrip in refl;
  one_line1 = refl;
  mark1 = refl;
  right1 = unfold rstrip in refl;
  one_line2 = refl;
  mark2 = refl;
  right2 = unfold rstrip in refl;
}

parse_records-served_example : parse_records (served (iss ∷ iss ∷ [])) ≡ ok (iss ∷ iss ∷ [])
parse_records-served_example =
    parse_records-served iss (iss ∷ []) (iss-IsServable, (iss-IsServable, tt))

abbrev body : Str
body = served (iss ∷ [])

body_parses : parse_records body ≡ ok (iss ∷ [])
body_parses = parse_records-served iss [] (iss-IsServable, tt)

parse_records_ok_example :
    All IsTle (iss ∷ [])
    × (length (iss ∷ []) * 3 ≡ length (solid_lines (strip body)))
    × (0 < length (iss ∷ []))
parse_records_ok_example = parse_records_ok body (iss ∷ []) body_parses

get-eq-ok_example :
    (get (response 200 (codes "x")) ≡ ok (codes "x"))
    ↔ ((response 200 (codes "x") ≡ response 200 (codes "x")) × (strip (codes "x") ≢ not_found_body))
get-eq-ok_example = get-eq-ok (response 200 (codes "x")) (codes "x")

abbrev small_body : Str
small_body = codes "A\n1 a\n2 b\n"

small_found :
    fetch_by_catalog_id (response 200 small_body)
    ≡ ok (some (record { name = codes "A"; line1 = codes "1 a"; line2 = codes "2 b" }))
unfolding fetch_by_catalog_id strip splitlines str_eq is_space starts_with
small_found = refl

fetch_by_catalog_id-in_range_example :
    Ends (response 200 small_body) (fetch_by_catalog_id (response 200 small_body))
fetch_by_catalog_id-in_range_example = fetch_by_catalog_id-in_range (response 200 small_body)

redirected :
    (message : Str)
    → fetch_by_catalog_id (httpx_error (too_many_redirects message))
      ≡ uncaught (too_many_redirects message)
unfolding fetch_by_catalog_id
redirected message = refl
