-- ===== src/Celestrak/Types.antt =====
-- Records and errors of the driver (app/core/celestrak/types.py, exceptions.py).
use apsis.Prelude.{ℕ, Str, ◌≡◌, refl, ◌⊎◌, inl, inr}

pub record TleRecord : Type 0 where
  pub name : Str
  pub line1 : Str
  pub line2 : Str

-- What the message of a plain `CelestrakError` shows: a status, a number of lines, a record's name.
pub data Detail : Type 0 where
  unexpected_status : ℕ → Detail
  ungrouped_lines : ℕ → Detail
  malformed_record : Str → Detail

-- What the message of a `TransientError` shows.
pub data Cause : Type 0 where
  timed_out : Str → Cause
  transport_failed : Str → Cause
  server_failed : ℕ → Cause

-- The exception classes; a message is kept as the values that it shows.
pub data CelestrakError : Type 0 where
  celestrak_error : Detail → CelestrakError
  tle_not_found : Str → CelestrakError
  rate_limited : Str → CelestrakError
  transient : Cause → CelestrakError

-- The exceptions of httpx that are no `TimeoutException` and no `TransportError`, so that the driver
-- lets them through: redirects are followed, and a body may be encoded.
pub data HttpxError : Type 0 where
  too_many_redirects : Str → HttpxError
  decoding_error : Str → HttpxError
  other_error : Str → HttpxError

-- A call that returns, raises a `CelestrakError`, or lets an exception of httpx through.
pub data Result {ℓ} (A : Type ℓ) : Type ℓ where
  ok : A → Result A
  err : CelestrakError → Result A
  uncaught : HttpxError → Result A

infixl 5 ◌>>=◌
-- What follows a call, unless the call raised.
abbrev pub ◌>>=◌ {ℓ κ} : {A : Type ℓ} {B : Type κ} → Result A → (A → Result B) → Result B
call >>= next = elim call [
  | err raised ↦ err raised
  | uncaught raised ↦ uncaught raised
  | ok value ↦ next value
]

pub Result-cases {ℓ} :
    {A : Type ℓ} (r : Result A)
    → ((a : A) × (r ≡ ok a))
      ⊎ (((e : CelestrakError) × (r ≡ err e)) ⊎ ((x : HttpxError) × (r ≡ uncaught x)))
Result-cases (ok a) = inl (a, refl)
Result-cases (err e) = inr (inl (e, refl))
Result-cases (uncaught x) = inr (inr (x, refl))
