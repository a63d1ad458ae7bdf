-- ===== src/Jobs/System.antt =====
-- Several job workers on one table: the interleavings of their transactions, of time and of crashes
-- (app/core/jobs/worker.py, app/core/config.py).
pub mod Exclusion
pub mod Preserved
use apsis.Prelude.{
  ℕ, ◌+◌, ◌*◌, ◌≤◌, ◌<◌, second, Instant, Uuid, Str, Bool, Option, none, some, List, ◌==◌, ltb, ◌≡◌,
  if◌then◌else◌,
}
use apsis.Jobs.Model.{Job}
use apsis.Jobs.Worker.{JobSettings, claim, reschedule, recover_stale_jobs}

-- What `validate_lease_invariant` accepts at startup.
unfoldable pub validate_lease_invariant : JobSettings → Bool
validate_lease_invariant s =
    if ltb s.lease_seconds (2 * s.handler_timeout_seconds) then Bool.false else Bool.true

-- Where a worker stands: between jobs, or between a job's claim, with the clock reading that its
-- lease counts from, and its reschedule.
pub data Phase : Type 0 where
  idle : Phase
  busy : Uuid → Instant → ℕ → Phase

-- The clock, the table, and the workers by number.
pub record System : Type 0 where
  pub now : Instant
  pub table : List Job
  pub phase : ℕ → Phase

abbrev pub update : (ℕ → Phase) → ℕ → Phase → ℕ → Phase
update f i p j = if j == i then p else f j

-- A busy worker is within its handler timeout and `slack` seconds for its own statements.
abbrev pub OnTime : JobSettings → ℕ → Instant → Phase → Type 0
OnTime settings slack now idle = Unit
OnTime settings slack now (busy job_id since interval_seconds) =
    now ≤ since + (settings.handler_timeout_seconds + slack) * second

module _ (settings : JobSettings) (slack : ℕ) (worker_id : ℕ → Str) where
  -- One transaction of one worker, a crash of a worker, or time going by. Time goes by only as far as
  -- every worker that is busy stays on time: `asyncio.wait_for` ends the handler at its timeout, and
  -- `slack` bounds what the worker's own statements take.
  pub data Step (s : System) : System → Type 0 where
    claims :
        (i : ℕ) (job_id : Uuid) (job_name : Str) (interval_seconds : ℕ) (s' : System)
        → s.phase i ≡ idle
        → (claim (worker_id i) job_id settings.lease_seconds s.now s.now s.table).0
          ≡ some (job_name, interval_seconds)
        → s' ≡ record {
          now = s.now;
          table = (claim (worker_id i) job_id settings.lease_seconds s.now s.now s.table).1;
          phase = update s.phase i (busy job_id s.now interval_seconds);
        }
        → Step s s'
    reschedules :
        (i : ℕ) (job_id : Uuid) (since : Instant) (interval_seconds : ℕ) (error : Option Str)
        (s' : System)
        → s.phase i ≡ busy job_id since interval_seconds
        → s' ≡ record {
          now = s.now;
          table = reschedule job_id s.now interval_seconds error s.table;
          phase = update s.phase i idle;
        }
        → Step s s'
    recovers :
        (s' : System)
        → s' ≡ record { now = s.now; table = recover_stale_jobs s.now s.table; phase = s.phase }
        → Step s s'
    crashes :
        (i : ℕ) (s' : System)
        → s' ≡ record { now = s.now; table = s.table; phase = update s.phase i idle }
        → Step s s'
    passes :
        (later : Instant) (s' : System)
        → s.now ≤ later
        → ((i : ℕ) → OnTime settings slack later (s.phase i))
        → s' ≡ record { now = later; table = s.table; phase = s.phase }
        → Step s s'

  pub data Reach (s : System) : System → Type 0 where
    here : Reach s s
    next : {t u : System} → Reach s t → Step t u → Reach s u
