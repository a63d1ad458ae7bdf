-- ===== src/Prelude/Runtime.antt =====
-- What the components share of the runtime: points in time, UUIDs, and how an awaited call ends.
use Prim.Native.Nat.{ℕ}
use apsis.Prelude.Texts.{Str}

-- A point in time: microseconds of UTC, as `datetime` counts them.
abbrev pub Instant : Type 0
Instant = ℕ

-- Microseconds of a second.
abbrev pub second : ℕ
second = 1000000

-- A PostgreSQL UUID.
abbrev pub Uuid : Type 0
Uuid = ℕ

-- How a coroutine under `asyncio.wait_for` ends: it returns, it raises an `Exception` (a timeout
-- counts) with a formatted traceback, or it is cancelled, which `except Exception` does not catch.
pub data Outcome : Type 0 where
  returned : Outcome
  raised : Str → Outcome
  cancelled : Outcome
