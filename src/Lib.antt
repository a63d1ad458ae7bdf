-- ===== src/Lib.antt =====
-- apsis tracks satellites over ground stations. A job worker refreshes orbital elements (TLEs) from
-- CelesTrak, the refresh writes events to a transactional outbox, and an outbox worker runs their
-- handlers, which recompute the passes. Everything is kept in PostgreSQL.
--
-- Files of this library and the code that they model:
--   Prelude          strings, dictionaries, lists, time and UUIDs as the program uses them of Python;
--                    Prelude/Whitespace has the laws of strip and splitlines
--   Events           app/core/events: Outbox (models.py), Dispatcher (dispatcher.py), Worker (worker.py;
--                    Worker/Loop its connection loop)
--   Jobs             app/core/jobs: Model (models.py), Registry (registry.py), Worker (worker.py), and
--                    System, several workers interleaved, with the lease check of app/core/config.py
--   Celestrak        app/core/celestrak: Types (types.py, exceptions.py), Client (drivers/http.py),
--                    Registry (registry.py)
--   Database         app/core/repo.py: the statements of the generic repository; Pages, Select
--   Tracking         app/tracking: Models (models), Repos (repos, and core/events/bus.py), Passes
--                    (services/passes.py and propagation.py), Ingest (use_cases/ingest_tles.py and the
--                    job core/jobs/handlers/tle_refresh.py;
--                    AsJob runs it under the job worker), Geometry (services/geometry.py), Predict
--                    (use_cases/compute_passes.py), Stations (use_cases/register_ground_station.py
--                    and its endpoint), Views (use_cases/get_ground_station_passes.py), Geojson
--                    (services/geometry.py), Recompute (event_handlers/recompute_passes.py)
--   Errors           app/core/exceptions and the session of a request of app/core/db.py
--   Api              app/tracking/api and app/tracking/schemas
--   Migration        migrations/versions/3bc965b4d0d6_initial_schema.py: Initial; Undo, Frame and
--                    RoundTrip run it up and down; Environment migrations/env.py; Naming
--                    app/core/db.py
--   App              app/main.py, app/core/startup.py, app/api/v1/health.py, and start and stop of the
--                    workers; App/Settings app/core/config.py
--   Tests            the definitions and the theorems at concrete inputs
--
-- Conventions. A str is the list of its code points, none of them a surrogate (pydantic and UTF-8
-- refuse them). A datetime is a number of microseconds, and a clock reading is an argument of the
-- function that takes it. A transaction is a function of its table; a rolled back one leaves the
-- table as it was. The columns that hold one of a few strings are data types. Handlers, httpx and
-- the clock are arguments. A handler acts on a world of any type, and ends by returning, raising (a
-- timeout counts) or being cancelled. random.uniform(0, 5) is a number of microseconds. A use case
-- is a function of the tables that its session sees; what it raises is a value, and the session is
-- then rolled back. Server is the server's side of a transaction: its now(), and the UUIDs that
-- gen_random_uuid() will give. ORDER BY keeps the table's order of equals. int() reads ASCII digits
-- only. Text that CelesTrak serves is taken to be free of U+0000, which PostgreSQL does not store;
-- the name of a station in a request is not. skyfield and geoalchemy2 are records of what the code
-- calls of them, and floats are the type that they name. In Jobs/System time goes by only as far as
-- busy workers stay on time.
--
-- Not modelled: logging, NOTIFY (the code only logs it), and what the wiring does with the
-- framework. 2**retry_count is a Python float sum in the code, which overflows only past a thousand
-- retries; the default limit is 8. In Tracking/Recompute a timeout or a cancellation falls before
-- the handler's commit; one that falls into the commit itself is left out. In Jobs/Worker/Loop an
-- error of the database falls into the recovery or into the SELECT of the due jobs. The times of
-- the sleeps and waits of the loops are what the code asks for. upper() is that of ASCII letters.
-- The digits of a number have fuel for one more digit than its value, which App/Settings/RoundTrip
-- shows to be enough.
pub mod Api
pub mod App
pub mod Celestrak
pub mod Database
pub mod Errors
pub mod Events
pub mod Jobs
pub mod Migration
pub mod Prelude
pub mod Tests
pub mod Tracking
