-- ===== src/Migration/Environment.antt =====
-- Which way the migrations run (src/migrations/env.py). What each way then calls is Alembic's.
use apsis.Prelude.{
  Str, codes, starts_with, is_empty, Bool, true, false, ◌||◌, [], ◌∷◌, ◌++◌, if◌then◌else◌, ◌≡◌,
  refl,
}
use apsis.App.Settings.{Settings, address, build_database_url}

pub data Mode : Type 0 where
  offline asynchronous synchronous : (url : Str) → Mode
  injected_connection : Mode

-- `part in s`
unfoldable pub is_within : (part s : Str) → Bool
unfolding starts_with
is_within part [] = is_empty part
is_within part (c ∷ s) = starts_with (c ∷ s) part || is_within part s

-- `run_migrations_online`
unfoldable pub run_migrations_online : (is_injected : Bool) → Settings → Mode
unfolding is_within
run_migrations_online is_injected settings =
    let url = settings.database_url in
    if is_injected
    then injected_connection
    else if is_within (codes "+asyncpg") url || is_within (codes "+aiosqlite") url
    then asynchronous url
    else synchronous url

-- The end of the script.
unfoldable pub run_migrations : (is_offline is_injected : Bool) → Settings → Mode
unfolding run_migrations_online
run_migrations is_offline is_injected settings =
    if is_offline then offline settings.database_url else run_migrations_online is_injected settings

-- With an address that is made of the parts, the migrations run over asyncpg at that address.
pub run_migrations-build_database_url :
    (s : Settings)
    → is_empty s.database_url ≡ true
    → run_migrations false false (build_database_url s)
      ≡ asynchronous (codes "postgresql+asyncpg" ++ address s)
unfolding run_migrations run_migrations_online build_database_url is_within starts_with
run_migrations-build_database_url s h = rw h refl
