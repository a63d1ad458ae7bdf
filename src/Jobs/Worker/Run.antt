-- ===== src/Jobs/Worker/Run.antt =====
-- One `_execute_job` from claim to reschedule.
use apsis.Prelude.{
  ◌+◌, ◌*◌, second, Instant, Uuid, Str, true, Option, none, some, List, ◌≡◌, refl, ◌∙◌, arith,
}
use apsis.Jobs.Model.{pending, Job, find_row}
use apsis.Jobs.Registry.{JobRegistry}
use apsis.Jobs.Worker.{
  is_due, take_lease, claim, finished, stored_error, reschedule, JobTurn, JobSettings, rescheduled,
  ran, run_handler, execute_job,
}
use apsis.Jobs.Worker.Statements.{find_row-reschedule, claim_due, claim_leases, id-find_row}

-- The row after a run that ended with `error` at `now`: free again, and due one interval later.
pub record Reran (now : Instant) (error : Option Str) (job job' : Job) : Type 0 where
  pub same_job :
      (job'.id ≡ job.id)
      × (job'.job_name ≡ job.job_name)
      × (job'.interval_seconds ≡ job.interval_seconds)
  pub free : (job'.status ≡ pending) × (job'.claimed_by ≡ none) × (job'.lease_until ≡ none)
  pub next : job'.next_run_at ≡ now + job.interval_seconds * second
  pub last : job'.last_run_at ≡ some now
  pub counted : job'.run_count ≡ job.run_count + 1
  pub reported : job'.last_error ≡ stored_error error

module _ {W : Type 0} (settings : JobSettings) (jobs : JobRegistry W) (worker_id : Str)
    (turn : JobTurn) where
  id-take_lease :
      (until : Instant) (job : Job) → (take_lease worker_id until turn.claimed_at job).id ≡ job.id
  unfolding take_lease
  id-take_lease until job = refl

  finished-Reran :
      (now until : Instant) (error : Option Str) (job : Job)
      → Reran now error job
          (finished now job.interval_seconds error (take_lease worker_id until turn.claimed_at job))
  unfolding finished take_lease
  finished-Reran now until error job = ground arith

  -- A pending job that is due when it is claimed, whose row nobody else changes until the run is
  -- over, and whose handler phase ends with `error` (none for a handler that returns, its traceback
  -- for one that raises or times out, a message where no handler is registered), is run once and its
  -- row is free again, due one interval after the last clock reading, with one more run counted and
  -- the end of the error stored.
  pub execute_job-Reran :
      (job_id : Uuid) (table : List Job) (w : W) (job : Job) (error : Option Str)
      → find_row job_id table ≡ some job
      → is_due turn.claimed_at job ≡ true
      → ((now : List Job) → find_row job_id (turn.meanwhile now) ≡ find_row job_id now)
      → (run_handler settings jobs worker_id job.job_name w).0 ≡ ran error
      → let result = execute_job settings jobs worker_id turn job_id table w in
        (result.0 ≡ rescheduled error)
        × (result.2 ≡ (run_handler settings jobs worker_id job.job_name w).1)
        × (job' : Job) × (find_row job_id result.1 ≡ some job')
        × Reran turn.rescheduled_at error job job'
  unfolding execute_job
  execute_job-Reran job_id table w job error found due quiet ended =
      rw (took, execute_job)
        (rw ended (
          refl,
          refl,
          finished turn.rescheduled_at job.interval_seconds error leased,
          held,
          finished-Reran turn.rescheduled_at until error job,
        ))
    where
      until : Instant
      until = turn.lease_read_at + settings.lease_seconds * second

      leased : Job
      leased = take_lease worker_id until turn.claimed_at job

      took :
          (claim worker_id job_id settings.lease_seconds turn.lease_read_at turn.claimed_at table).0
          ≡ some (job.job_name, job.interval_seconds)
      took =
          claim_due job_id table worker_id settings.lease_seconds turn.lease_read_at turn.claimed_at
            job found due

      claimed :
          find_row job_id (
            turn.meanwhile
              (claim worker_id job_id settings.lease_seconds turn.lease_read_at turn.claimed_at
                table).1)
          ≡ some leased
      claimed =
          quiet _
          ∙ claim_leases job_id table worker_id settings.lease_seconds turn.lease_read_at
              turn.claimed_at job found due

      held :
          find_row job_id (
            reschedule job_id turn.rescheduled_at job.interval_seconds error (
              turn.meanwhile
                (claim worker_id job_id settings.lease_seconds turn.lease_read_at turn.claimed_at
                  table).1))
          ≡ some (finished turn.rescheduled_at job.interval_seconds error leased)
      held =
          rw (find_row-reschedule job_id turn.rescheduled_at job.interval_seconds error job_id _)
            (rw claimed (ground (arith, id-find_row job_id table found, id-take_lease until job)))
