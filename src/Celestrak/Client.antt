-- ===== src/Celestrak/Client.antt =====
-- The HTTP client (app/core/celestrak/drivers/http.py). What httpx answers is an argument.
pub mod Status
pub mod Nonempty
pub mod RoundTrip
use apsis.Prelude.{
  ℕ, ◌%◌, Str, codes, str_eq, strip, rstrip, splitlines, starts_with, is_empty, Bool, true, false,
  not, ◌&&◌, ◌||◌, Option, none, some, List, [], ◌∷◌, map, length, keep, leb, ◌==◌, if◌then◌else◌,
}
use apsis.Celestrak.Types.{
  TleRecord, Detail, unexpected_status, ungrouped_lines, malformed_record, CelestrakError,
  celestrak_error, tle_not_found, rate_limited, transient, timed_out, transport_failed,
  server_failed, Result, ok, err, uncaught, HttpxError, ◌>>=◌,
}

-- What `httpx.AsyncClient.get` gives: a response, one of the two exceptions that are caught, or another
-- exception of httpx.
pub data Reply : Type 0 where
  response : (status_code : ℕ) (text : Str) → Reply
  timeout_exception : Str → Reply
  transport_error : Str → Reply
  httpx_error : HttpxError → Reply

abbrev pub not_found_body : Str
not_found_body = codes "No GP data found"

-- `text or default`
abbrev or_text : Str → Str → Str
or_text text default = if is_empty text then default else text

unfoldable pub check_status : ℕ → Str → Result Str
check_status status_code body =
    let text = strip body in
    if status_code == 403
    then err (rate_limited text)
    else if leb 500 status_code
    then err (transient (server_failed status_code))
    else if status_code == 404 || (status_code == 200 && str_eq text not_found_body)
    then err (tle_not_found (or_text text (codes "no GP data")))
    else if not (status_code == 200)
    then err (celestrak_error (unexpected_status status_code))
    else ok body

-- `_get`
unfoldable pub get : Reply → Result Str
unfolding check_status
get (timeout_exception message) = err (transient (timed_out message))
get (transport_error message) = err (transient (transport_failed message))
get (httpx_error raised) = uncaught raised
get (response status_code text) = check_status status_code text

-- The comprehension over the lines of the body.
unfoldable pub solid_lines : Str → List Str
solid_lines text = map rstrip (keep (λ line. not (is_empty (strip line))) (splitlines text))

is_tle_pair : Str → Str → Bool
is_tle_pair line1 line2 = starts_with line1 (codes "1 ") && starts_with line2 (codes "2 ")

-- The loop over the groups of three; the caller has checked that no line is left over.
unfoldable pub parse_groups : List Str → Result (List TleRecord)
unfolding is_tle_pair
parse_groups (name ∷ line1 ∷ line2 ∷ lines) =
    let rest = parse_groups lines in
    if is_tle_pair line1 line2
    then (rest >>= λ records.
        ok (record { name = strip name; line1 = line1; line2 = line2 } ∷ records))
    else err (celestrak_error (malformed_record name))
parse_groups _ = ok []

-- `_parse_records`
unfoldable pub parse_records : Str → Result (List TleRecord)
unfolding solid_lines parse_groups
parse_records body =
    let text = strip body in
    let lines = solid_lines text in
    if is_empty text || str_eq text not_found_body
    then err (tle_not_found (or_text text (codes "empty response")))
    else if not (length lines % 3 == 0)
    then err (celestrak_error (ungrouped_lines (length lines)))
    else parse_groups lines

unfoldable pub fetch_group : Reply → Result (List TleRecord)
unfolding get parse_records
fetch_group reply = do body ← get reply; parse_records body

-- Subscript 0 of a list; `none` is an `IndexError`.
abbrev pub first_record : List TleRecord → Option TleRecord
first_record [] = none
first_record (r ∷ rs) = some r

unfoldable pub fetch_by_catalog_id : Reply → Result (Option TleRecord)
unfolding fetch_group
fetch_by_catalog_id reply = do records ← fetch_group reply; ok (first_record records)
