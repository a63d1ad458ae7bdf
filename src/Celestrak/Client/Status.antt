-- ===== src/Celestrak/Client/Status.antt =====
-- Which replies `_get` accepts, and which error it raises for another.
use apsis.Prelude.{
  is_empty, codes, if◌then◌else◌, ℕ, ◌≤◌, ◌<◌, leb, str_eq, ◌==◌, ==_iff, Bool-cases, inl, inr,
  refl, ap, Str, str_eq_iff, strip, ◌≡◌, ◌≢◌, ◌↔◌, arith,
}
use apsis.Celestrak.Types.{
  ok, err, CelestrakError, celestrak_error, tle_not_found, rate_limited, transient, timed_out,
  transport_failed, server_failed, unexpected_status,
}
use apsis.Celestrak.Client.{
  Reply, response, timeout_exception, transport_error, httpx_error, not_found_body, check_status,
  get,
}

-- `_get` returns a body exactly for a response of status 200 whose stripped text is not the notice
-- that nothing was found, and then it returns that response's text unchanged.
pub get-eq-ok :
    (reply : Reply) (body : Str)
    → (get reply ≡ ok body) ↔ ((reply ≡ response 200 body) × (strip body ≢ not_found_body))
unfolding get
get-eq-ok (response status text) body = (
  (λ h. (ground (arith), ground (arith, str_eq_iff (strip text) not_found_body))),
  λ h. ground (arith, h.0, h.1, str_eq_iff (strip text) not_found_body),
)
get-eq-ok (timeout_exception m) body = ((λ h. absurd (cc)), λ h. absurd (ground (arith, h.0)))
get-eq-ok (transport_error m) body = ((λ h. absurd (cc)), λ h. absurd (ground (arith, h.0)))
get-eq-ok (httpx_error x) body = ((λ h. absurd (cc)), λ h. absurd (ground (arith, h.0)))

-- Which error of the driver stands for a reply that has no records.
pub data Fault (reply : Reply) (e : CelestrakError) : Type 0 where
  late : (m : Str) → reply ≡ timeout_exception m → e ≡ transient (timed_out m) → Fault reply e
  cut : (m : Str) → reply ≡ transport_error m → e ≡ transient (transport_failed m) → Fault reply e
  limited : (text : Str) → reply ≡ response 403 text → e ≡ rate_limited (strip text) → Fault reply e
  failing :
      (status : ℕ) (text : Str)
      → reply ≡ response status text
      → 500 ≤ status
      → e ≡ transient (server_failed status)
      → Fault reply e
  missing :
      (text : Str)
      → reply ≡ response 404 text
      → e ≡ tle_not_found (if is_empty (strip text) then codes "no GP data" else strip text)
      → Fault reply e
  noticed :
      (text : Str)
      → reply ≡ response 200 text
      → strip text ≡ not_found_body
      → e ≡ tle_not_found not_found_body
      → Fault reply e
  unexpected :
      (status : ℕ) (text : Str)
      → reply ≡ response status text
      → status ≢ 200
      → status ≢ 403
      → status ≢ 404
      → status < 500
      → e ≡ celestrak_error (unexpected_status status)
      → Fault reply e

check_status-Fault :
    (status : ℕ) (text : Str) (e : CelestrakError)
    → check_status status text ≡ err e
    → Fault (response status text) e
unfolding check_status str_eq
check_status-Fault status text e h = elim (Bool-cases (status == 403)) [
  | inl is_403 ↦
      let same : status ≡ 403 = (==_iff status 403).0 is_403 in
      limited text (ap (λ n. response n text) same) (ground arith)
  | inr not_403 ↦ elim (Bool-cases (leb 500 status)) [
    | inl over ↦ failing status text refl (ground arith) (ground arith)
    | inr under ↦ elim (Bool-cases (status == 404)) [
      | inl is_404 ↦
          let same : status ≡ 404 = (==_iff status 404).0 is_404 in
          missing text (ap (λ n. response n text) same) (ground arith)
      | inr not_404 ↦ elim (Bool-cases (status == 200)) [
        | inl is_200 ↦
            let same : status ≡ 200 = (==_iff status 200).0 is_200 in
            elim (Bool-cases (str_eq (strip text) not_found_body)) [
              | inl notice ↦
                  let is_notice = (str_eq_iff (strip text) not_found_body).0 notice in
                  let told : check_status status text ≡ err (tle_not_found not_found_body) =
                    rw (same, is_notice, check_status) refl in
                  noticed text (ap (λ n. response n text) same) is_notice (cc (told, h))
              | inr found ↦ absurd (ground arith)
            ]
        | inr not_200 ↦
            unexpected status text refl (ground arith) (ground arith) (ground arith) (ground arith)
              (ground arith)
      ]
    ]
  ]
]

pub get-Fault : (reply : Reply) (e : CelestrakError) → get reply ≡ err e → Fault reply e
unfolding get
get-Fault (response status text) e h = check_status-Fault status text e h
get-Fault (timeout_exception m) e h = late m refl (cc h)
get-Fault (transport_error m) e h = cut m refl (cc h)
get-Fault (httpx_error x) e h = absurd (cc)
