-- ===== src/Errors.antt =====
-- The errors of the domain and their responses (app/core/exceptions), and the session of a request
-- (app/core/db.py).
use apsis.Prelude.{
  ℕ, zero, suc, ◌+◌, ◌/◌, ◌%◌, Str, codes, Uuid, Option, none, some, [], ◌∷◌, ◌++◌, take, drop, ltb,
  if◌then◌else◌,
}
use apsis.Tracking.Models.{
  Database, Failure, not_found, conflict, celestrak, httpx, value_error, integrity_error,
  data_error, key_error, attribute_error, Attempt, done, raised,
}

hex_digit : ℕ → ℕ
hex_digit d = if ltb d 10 then 48 + d else 87 + d

-- The last `k` hexadecimal digits of a number.
hex_of : ℕ → ℕ → Str
unfolding hex_digit
hex_of zero n = []
hex_of (suc k) n = hex_of k (n / 16) ++ hex_digit (n % 16) ∷ []

-- `str` of a UUID.
unfoldable pub uuid_str : Uuid → Str
unfolding hex_of
uuid_str i =
    let hex = hex_of 32 i in
    let dash = codes "-" in
    take 8 hex
    ++ (dash
        ++ (take 4 (drop 8 hex)
            ++ (dash
                ++ (take 4 (drop 12 hex)
                    ++ (dash ++ (take 4 (drop 16 hex) ++ (dash ++ drop 20 hex)))))))

-- `DomainException` and its subclasses.
pub data ErrorClass : Type 0 where
  domain_exception not_found_error conflict_error business_validation_error external_service_error :
      ErrorClass

unfoldable pub status_code : ErrorClass → ℕ
status_code domain_exception = 500
status_code not_found_error = 404
status_code conflict_error = 409
status_code business_validation_error = 400
status_code external_service_error = 502

unfoldable pub code : ErrorClass → Str
code domain_exception = codes "internal_error"
code not_found_error = codes "not_found"
code conflict_error = codes "conflict"
code business_validation_error = codes "business_validation"
code external_service_error = codes "external_service_error"

pub record DomainException : Type 0 where
  pub class : ErrorClass
  pub message : Str

-- `DomainException.__init__`: `message or self.code`.
unfoldable pub new_error : ErrorClass → Option Str → DomainException
unfolding code
new_error class none = record { class = class; message = code class }
new_error class (some []) = record { class = class; message = code class }
new_error class (some (c ∷ s)) = record { class = class; message = c ∷ s }

-- `NotFoundError.__init__`
unfoldable pub new_not_found_error : (entity : Str) → Option Uuid → DomainException
unfolding new_error uuid_str
new_not_found_error entity none = new_error not_found_error (some (entity ++ codes " not found"))
new_not_found_error entity (some i) =
    new_error not_found_error
      (some (entity ++ (codes " not found" ++ (codes " (id: " ++ (uuid_str i ++ codes ")")))))

-- A response: the endpoint's, that of an exception handler, that of a request that is not valid
-- (with pydantic's list of errors), or the framework's for any other exception.
pub data Response (B : Type 0) : Type 0 where
  answered : (status : ℕ) → B → Response B
  refused : (status : ℕ) → (detail code : Str) → Response B
  not_valid : Response B
  internal_error : Response B

abbrev pub status_of : {B : Type 0} → Response B → ℕ
status_of (answered status body) = status
status_of (refused status detail code) = status
status_of not_valid = 422
status_of internal_error = 500

-- The handler of `DomainException`.
unfoldable pub respond_domain : {B : Type 0} → DomainException → Response B
unfolding status_code code
respond_domain e = refused (status_code e.class) e.message (code e.class)

-- The handlers, by the exception that a use case raises.
unfoldable pub respond : {B : Type 0} → Failure → Response B
unfolding respond_domain new_not_found_error new_error
respond (not_found entity i) = respond_domain (new_not_found_error entity (some i))
respond (conflict name) =
    respond_domain
      (new_error conflict_error (some (codes "ground station already exists: " ++ name)))
respond integrity_error = refused 409 (codes "Integrity conflict") (codes "integrity_conflict")
respond (celestrak e) = internal_error
respond (httpx x) = internal_error
respond value_error = internal_error
respond data_error = internal_error
respond key_error = internal_error
respond attribute_error = internal_error

-- A request whose endpoint runs in `get_session`: commit on a clean exit, rollback on an exception.
unfoldable pub in_session :
    {B Float Wkb : Type 0}
    → (status : ℕ) → Attempt (B × Database Float Wkb)
    → Database Float Wkb
    → Response B × Database Float Wkb
unfolding respond
in_session status (done (body, db')) db = (answered status body, db')
in_session status (raised failure) db = (respond failure, db)
