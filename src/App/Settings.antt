-- ===== src/App/Settings.antt =====
-- The settings (app/core/config.py) and what is made of them.
pub mod RoundTrip
use apsis.Prelude.{
  ℕ, zero, suc, ◌+◌, ◌-◌, ◌*◌, ◌≤◌, ◌<◌, ◌/◌, ◌%◌, second, Str, codes, strip, is_empty, Bool, true,
  false, not, Option, none, some, List, [], ◌∷◌, ◌++◌, map, keep, ltb, ◌==◌, if◌then◌else◌,
  Bool-cases, inl, inr, ◌≡◌, refl, ◌∙◌, arith,
}
use apsis.Jobs.Worker.{JobSettings}
use apsis.Jobs.System.{validate_lease_invariant}

-- Intervals that are floats of seconds are microseconds.
pub record Settings : Type 0 where
  pub app_name : Str
  pub app_version : Str
  pub environment : Str
  pub cors_origins : Str
  pub db_host : Str
  pub db_port : ℕ
  pub db_user : Str
  pub db_password : Str
  pub db_name : Str
  pub database_url : Str
  pub db_pool_size : ℕ
  pub db_max_overflow : ℕ
  pub db_pool_timeout : ℕ
  pub db_pool_recycle : ℕ
  pub job_poll_interval : ℕ
  pub job : JobSettings
  pub outbox_poll_interval : ℕ
  pub outbox_handler_timeout_seconds : ℕ
  pub outbox_max_retries : ℕ
  pub celestrak_base_url : Str
  pub celestrak_group : Str
  pub celestrak_timeout : ℕ
  pub pass_prediction_horizon_hours : ℕ

-- The defaults.
abbrev pub default_settings : Settings
default_settings = record {
  app_name = codes "apsis";
  app_version = codes "0.1.0";
  environment = codes "local";
  cors_origins = [];
  db_host = codes "localhost";
  db_port = 5432;
  db_user = codes "apsis";
  db_password = codes "apsis";
  db_name = codes "apsis_dev";
  database_url = [];
  db_pool_size = 5;
  db_max_overflow = 10;
  db_pool_timeout = 30;
  db_pool_recycle = 1800;
  job_poll_interval = 5 * second;
  job = record { lease_seconds = 120; handler_timeout_seconds = 55 };
  outbox_poll_interval = 5 * second;
  outbox_handler_timeout_seconds = 30;
  outbox_max_retries = 8;
  celestrak_base_url = codes "https://celestrak.org/NORAD/elements/gp.php";
  celestrak_group = codes "active";
  celestrak_timeout = 30 * second;
  pass_prediction_horizon_hours = 48;
}

-- The decimal digits that an f-string writes, from the last to the first; a number has fewer digits than
-- its successor has units, which is the fuel.
unfoldable pub digits_before : (fuel n : ℕ) → Str → Str
digits_before zero n s = s
digits_before (suc fuel) n s =
    let more = digits_before fuel (n / 10) ((48 + n % 10) ∷ s) in
    if ltb n 10 then (48 + n) ∷ s else more

unfoldable pub show_int : ℕ → Str
unfolding digits_before
show_int n = digits_before (n + 1) n []

-- One character before a text that is split.
abbrev before_first : ℕ → List Str → List Str
before_first c [] = (c ∷ []) ∷ []
before_first c (part ∷ parts) = (c ∷ part) ∷ parts

-- `s.split(sep)` for one character.
unfoldable pub split : ℕ → Str → List Str
split sep [] = [] ∷ []
split sep (c ∷ s) = let rest = split sep s in if c == sep then [] ∷ rest else before_first c rest

-- `cors_origins`
unfoldable pub origins : Settings → List Str
unfolding split strip
origins settings = keep (λ o. not (is_empty o)) (map strip (split 44 settings.cors_origins))

-- Whether the application adds the middleware for them.
unfoldable pub adds_cors : Settings → Bool
unfolding origins
adds_cors settings = elim (origins settings) [ [] ↦ false | o ∷ os ↦ true ]

unfoldable pub address : Settings → Str
unfolding show_int
address s =
    codes "://"
    ++ s.db_user
    ++ codes ":"
    ++ s.db_password
    ++ codes "@"
    ++ s.db_host
    ++ codes ":"
    ++ show_int s.db_port
    ++ codes "/"
    ++ s.db_name

unfoldable pub build_database_url : Settings → Settings
unfolding address
build_database_url s =
    if is_empty s.database_url
    then record s { database_url = codes "postgresql+asyncpg" ++ address s }
    else s

-- Both validators: `none` is the ValueError.
unfoldable pub validated : Settings → Option Settings
unfolding build_database_url validate_lease_invariant
validated settings =
    let s = build_database_url settings in if validate_lease_invariant s.job then some s else none

-- `_build_asyncpg_dsn` of the outbox worker.
unfoldable pub build_asyncpg_dsn : Settings → Str
unfolding address
build_asyncpg_dsn s = codes "postgresql" ++ address s
