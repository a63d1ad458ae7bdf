-- ===== src/Tracking/Models.antt =====
-- The rows of the tracking tables (app/tracking/models), the tables that a session sees, and what a
-- use case may raise. Floats and geometries (WKBElement) are types of any kind.
use apsis.Prelude.{ℕ, ℤ, Str, Instant, Uuid, Option, List, ◌⊎◌, inl, inr, ◌≡◌, refl}
use apsis.Events.Outbox.{OutboxEvent}
use apsis.Celestrak.Types.{CelestrakError, HttpxError}

pub record Satellite : Type 0 where
  pub id : Uuid
  pub norad_id : ℤ
  pub name : Str
  pub tle_line1 : Str
  pub tle_line2 : Str
  pub epoch : Instant
  pub created_at : Instant
  pub updated_at : Option Instant

pub record GroundStation (Float Wkb : Type 0) : Type 0 where
  pub id : Uuid
  pub name : Str
  pub location : Wkb
  pub altitude_m : Float
  pub created_at : Instant
  pub updated_at : Option Instant

pub record PassPrediction (Float Wkb : Type 0) : Type 0 where
  pub id : Uuid
  pub satellite_id : Uuid
  pub ground_station_id : Uuid
  pub aos_at : Instant
  pub los_at : Instant
  pub peak_at : Instant
  pub peak_elevation_deg : Float
  pub track : Wkb
  pub created_at : Instant
  pub updated_at : Option Instant

-- The tables, and how many UUIDs the server has generated.
pub record Database (Float Wkb : Type 0) : Type 0 where
  pub satellites : List Satellite
  pub ground_stations : List (GroundStation Float Wkb)
  pub pass_predictions : List (PassPrediction Float Wkb)
  pub outbox_events : List OutboxEvent
  pub generated : ℕ

-- The server's side of a transaction: its `now()`, and the UUIDs that `gen_random_uuid()` gives, by
-- how many it has given before.
pub record Server : Type 0 where
  pub now : Instant
  pub gen_random_uuid : ℕ → Uuid

-- The exceptions that end a use case; its session is then rolled back.
pub data Failure : Type 0 where
  not_found : (entity : Str) → Uuid → Failure
  conflict : (name : Str) → Failure
  celestrak : CelestrakError → Failure
  httpx : HttpxError → Failure
  value_error integrity_error data_error key_error attribute_error : Failure

-- What a statement or a use case ends with.
pub data Attempt {ℓ} (A : Type ℓ) : Type ℓ where
  done : A → Attempt A
  raised : Failure → Attempt A

infixl 5 ◌>>=◌
abbrev pub ◌>>=◌ {ℓ κ} : {A : Type ℓ} {B : Type κ} → Attempt A → (A → Attempt B) → Attempt B
done value >>= further = further value
raised failure >>= further = raised failure

pub Attempt-cases {ℓ} :
    {A : Type ℓ} (r : Attempt A) → ((f : Failure) × (r ≡ raised f)) ⊎ ((a : A) × (r ≡ done a))
Attempt-cases (raised f) = inl (f, refl)
Attempt-cases (done a) = inr (a, refl)
