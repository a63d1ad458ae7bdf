-- ===== src/Celestrak/Client/Nonempty.antt =====
-- A parse that succeeds gives at least one record, so the subscript 0 of `fetch_by_catalog_id` is
-- in range.
use mathlib.Core.Path.{subst}
use apsis.Prelude.{
  suc, ◌+◌, ◌*◌, ◌%◌, ◌<◌, Str, codes, str_eq, strip, rstrip, splitlines, starts_with, is_empty,
  true, not, Option, some, List, [], ◌∷◌, map, length, keep, ◌==◌, ==_iff, ◌≡◌, ◌≢◌, ◌∙◌, refl, ap,
  arith, All, Bool-cases, inl, inr,
}
use apsis.Prelude.Whitespace.{
  is_solid, some_solid, is_empty-strip, strip-is_solid, splitlines-solid,
}
use apsis.Celestrak.Types.{
  TleRecord, Result, ok, err, uncaught, Result-cases, CelestrakError, HttpxError,
}
use apsis.Celestrak.Client.Status.{Fault, get-eq-ok, get-Fault}
use apsis.Celestrak.Client.{
  Reply, response, timeout_exception, transport_error, httpx_error, check_status, not_found_body,
  solid_lines, is_tle_pair, parse_groups, parse_records, fetch_group, fetch_by_catalog_id, get,
}

-- A record whose data lines carry their marks.
pub record IsTle (r : TleRecord) : Type 0 where
  pub first : starts_with r.line1 (codes "1 ") ≡ true
  pub second : starts_with r.line2 (codes "2 ") ≡ true

-- What the groups of some lines give: marked records, one for each three lines.
abbrev Grouped : List Str → List TleRecord → Type 0
Grouped lines records = All IsTle records × (length records * 3 + length lines % 3 ≡ length lines)

is_tle_pair-IsTle :
    (name line1 line2 : Str)
    → is_tle_pair line1 line2 ≡ true
    → IsTle (record { name = strip name; line1 = line1; line2 = line2 })
unfolding is_tle_pair
is_tle_pair-IsTle name line1 line2 h = ground arith

parse_groups_ok :
    (lines : List Str) (records : List TleRecord)
    → parse_groups lines ≡ ok records
    → Grouped lines records
unfolding parse_groups
parse_groups_ok [] records h = subst (Grouped []) {x = []} (cc h) (tt, omega arith)
parse_groups_ok (a ∷ []) records h = subst (Grouped (a ∷ [])) {x = []} (cc h) (tt, omega arith)
parse_groups_ok (a ∷ b ∷ []) records h =
    subst (Grouped (a ∷ b ∷ [])) {x = []} (cc h) (tt, omega arith)
parse_groups_ok (a ∷ b ∷ c ∷ lines) records h = elim (Bool-cases (is_tle_pair b c)) [
  | inl fits ↦ elim (Result-cases (parse_groups lines)) [
    | inr (inl (e, failed)) ↦ absurd (ground arith)
    | inr (inr (x, passed)) ↦ absurd (ground arith)
    | inl (rest, parsed) ↦
        let (marked, counted) = parse_groups_ok lines rest parsed in
        let r : TleRecord = record { name = strip a; line1 = b; line2 = c } in
        subst (Grouped (a ∷ b ∷ c ∷ lines)) {x = r ∷ rest} (ground arith)
          ((is_tle_pair-IsTle a b c fits, marked), omega (arith, counted))
  ]
  | inr other ↦ absurd (ground arith)
]

kept_solid :
    (lines : List Str)
    → some_solid lines ≡ true
    → 0 < length (keep (λ l. not (is_empty (strip l))) lines)
kept_solid [] h = absurd (cc h)
kept_solid (l ∷ ls) h = ground (arith, is_empty-strip l, kept_solid ls)

length-map : (f : Str → Str) (xs : List Str) → length (map f xs) ≡ length xs
length-map f [] = refl
length-map f (x ∷ xs) = ap suc (length-map f xs)

solid_lines_solid : (text : Str) → is_solid text ≡ true → 0 < length (solid_lines text)
unfolding solid_lines
solid_lines_solid text h =
    rw (length-map rstrip (keep (λ l. not (is_empty (strip l))) (splitlines text)))
      (kept_solid (splitlines text) (splitlines-solid text h))

-- Each record that a parse returns carries its marks, there are as many records as groups of three
-- lines with no line left over, and there is at least one.
pub parse_records_ok :
    (body : Str) (records : List TleRecord)
    → parse_records body ≡ ok records
    → All IsTle records
      × (length records * 3 ≡ length (solid_lines (strip body)))
      × (0 < length records)
unfolding parse_records
parse_records_ok body records h = elim (Bool-cases (is_empty (strip body))) [
  | inl nothing ↦ absurd (ground arith)
  | inr something ↦ elim (Bool-cases (str_eq (strip body) not_found_body)) [
    | inl notice ↦ absurd (ground arith)
    | inr text ↦ elim (Bool-cases (length (solid_lines (strip body)) % 3 == 0)) [
      | inr ragged ↦ absurd (ground arith)
      | inl whole ↦
          let parsed : parse_groups (solid_lines (strip body)) ≡ ok records = ground arith in
          let (marked, counted) = parse_groups_ok (solid_lines (strip body)) records parsed in
          let solid : is_solid (strip body) ≡ true =
            ground (arith, is_empty-strip body, strip-is_solid body) in
          let some_line = solid_lines_solid (strip body) solid in
          let even = (==_iff (length (solid_lines (strip body)) % 3) 0).0 whole in
          (marked, omega arith, omega arith)
    ]
  ]
]

no_httpx_groups : (lines : List Str) (x : HttpxError) → parse_groups lines ≢ uncaught x
unfolding parse_groups
no_httpx_groups [] x h = cc
no_httpx_groups (a ∷ []) x h = cc
no_httpx_groups (a ∷ b ∷ []) x h = cc
no_httpx_groups (a ∷ b ∷ c ∷ lines) x h = elim (Result-cases (parse_groups lines)) [
  | inl (rest, parsed) ↦ ground arith
  | inr (inl (e, failed)) ↦ ground arith
  | inr (inr (y, passed)) ↦ no_httpx_groups lines y passed
]

-- A parse lets nothing of httpx through.
no_httpx : (body : Str) (x : HttpxError) → parse_records body ≢ uncaught x
unfolding parse_records
no_httpx body x h = elim (Bool-cases (is_empty (strip body))) [
  | inl nothing ↦ absurd (ground arith)
  | inr something ↦ elim (Bool-cases (str_eq (strip body) not_found_body)) [
    | inl notice ↦ absurd (ground arith)
    | inr text ↦ elim (Bool-cases (length (solid_lines (strip body)) % 3 == 0)) [
      | inr ragged ↦ absurd (ground arith)
      | inl whole ↦
          let parsed : parse_groups (solid_lines (strip body)) ≡ uncaught x = ground arith in
          no_httpx_groups (solid_lines (strip body)) x parsed
    ]
  ]
]

first_of_nonempty :
    (records : List TleRecord)
    → All IsTle records
    → 0 < length records
    → (r : TleRecord) × (rs : List TleRecord) × (records ≡ r ∷ rs) × IsTle r
first_of_nonempty [] marked h = absurd (omega arith)
first_of_nonempty (r ∷ rs) marked h = (r, rs, refl, marked.0)

-- Why an error of the driver is raised: by the status or a failed call, or by the parse of the body.
pub data Refused (reply : Reply) (e : CelestrakError) : Type 0 where
  not_fetched : Fault reply e → Refused reply e
  not_parsed :
      (body : Str) → reply ≡ response 200 body → parse_records body ≡ err e → Refused reply e

-- How `fetch_by_catalog_id` ends.
pub data Ends (reply : Reply) : Result (Option TleRecord) → Type 0 where
  finds :
      (body : Str) (r : TleRecord) (rs : List TleRecord)
      → reply ≡ response 200 body
      → parse_records body ≡ ok (r ∷ rs)
      → IsTle r
      → Ends reply (ok (some r))
  refuses : (e : CelestrakError) → Refused reply e → Ends reply (err e)
  passes : (x : HttpxError) → reply ≡ httpx_error x → Ends reply (uncaught x)

get_passes : (reply : Reply) (x : HttpxError) → get reply ≡ uncaught x → reply ≡ httpx_error x
unfolding get check_status
get_passes (httpx_error y) x h = ground arith
get_passes (timeout_exception m) x h = absurd (cc)
get_passes (transport_error m) x h = absurd (cc)
get_passes (response status text) x h = absurd (ground arith)

fetched :
    (reply : Reply) (body : Str) (parsed : Result (List TleRecord))
    → get reply ≡ ok body
    → parse_records body ≡ parsed
    → fetch_group reply ≡ parsed
unfolding fetch_group
fetched reply body parsed got is_parsed = rw (got, fetch_group) is_parsed

not_fetched_group :
    (reply : Reply) (e : CelestrakError) → get reply ≡ err e → fetch_group reply ≡ err e
unfolding fetch_group
not_fetched_group reply e h = rw (h, fetch_group) refl

passed_group :
    (reply : Reply) (x : HttpxError) → get reply ≡ uncaught x → fetch_group reply ≡ uncaught x
unfolding fetch_group
passed_group reply x h = rw (h, fetch_group) refl

-- Unless it is cancelled, `fetch_by_catalog_id` ends in one of three ways, for every reply. It returns the
-- first of the records of a response of status 200, and that one carries its marks; or it raises one of
-- the driver's errors, by reason of the call, of what the response says or of the parse; or it lets
-- through the exception of httpx that the call raised and that it does not catch. So it never raises an
-- IndexError.
pub fetch_by_catalog_id-in_range : (reply : Reply) → Ends reply (fetch_by_catalog_id reply)
unfolding fetch_by_catalog_id
fetch_by_catalog_id-in_range reply = elim (Result-cases (get reply)) [
  | inl (body, got) ↦
      let here = ((get-eq-ok reply body).0 got).0 in
      elim (Result-cases (parse_records body)) [
        | inl (records, parsed) ↦
            let (marked, _, some_record) = parse_records_ok body records parsed in
            let (r, rs, same, mark) = first_of_nonempty records marked some_record in
            let all = parsed ∙ ap (λ xs. ok xs) same in
            rw (fetched reply body (ok (r ∷ rs)) got all) (finds body r rs here all mark)
        | inr (inl (e, failed)) ↦
            rw (fetched reply body (err e) got failed) (refuses e (not_parsed body here failed))
        | inr (inr (x, passed)) ↦ absurd (no_httpx body x passed)
      ]
  | inr (inl (e, failed)) ↦
      rw (not_fetched_group reply e failed) (refuses e (not_fetched (get-Fault reply e failed)))
  | inr (inr (x, passed)) ↦ rw (passed_group reply x passed) (passes x (get_passes reply x passed))
]
