-- ===== src/Jobs/Worker.antt =====
-- The job worker (app/core/jobs/worker.py). Each statement is a transaction of its own; the clock
-- readings of a statement are its arguments.
pub mod Statements
pub mod Run
pub mod Loop
pub mod Candidates
pub mod Recovery
use apsis.Prelude.{
  ℕ, ◌+◌, ◌*◌, ◌-◌, second, Instant, Uuid, Str, codes, Bool, true, false, not, ◌&&◌, ◌||◌, Option,
  none, some, List, [], ◌∷◌, ◌++◌, map, length, take, drop, keep, count_if, leb, ltb, ◌==◌,
  if◌then◌else◌, Outcome, returned, raised, cancelled,
}
use apsis.Jobs.Model.{JobStatus, pending, running, Job, is_pending, find_row, update_where}
use apsis.Jobs.Registry
use apsis.Jobs.Registry.{JobFunc, JobRegistry}

abbrev pub batch_size : ℕ
batch_size = 10

unfoldable pub lease_expired : Instant → Option Instant → Bool
lease_expired now none = true
lease_expired now (some t) = ltb t now

-- A RUNNING row without a lease, or with one that is over.
unfoldable pub is_stale : Instant → Job → Bool
unfolding lease_expired
is_stale now job = not (is_pending job.status) && lease_expired now job.lease_until

unfoldable pub release : Job → Job
release job = record job { status = pending; claimed_by = none; lease_until = none }

-- The statement of `_recover_stale_jobs`.
unfoldable pub recover_stale_jobs : Instant → List Job → List Job
unfolding release is_stale
recover_stale_jobs now table = update_where (is_stale now) release table

-- The `rowcount` that it logs.
unfoldable pub recovered_count : Instant → List Job → ℕ
recovered_count now table = count_if (is_stale now) table

unfoldable pub is_due : Instant → Job → Bool
is_due now job = is_pending job.status && leb job.next_run_at now

unfoldable pub insert_by_next_run : Job → List Job → List Job
insert_by_next_run j [] = j ∷ []
insert_by_next_run j (k ∷ ks) =
    if leb j.next_run_at k.next_run_at then j ∷ k ∷ ks else k ∷ insert_by_next_run j ks

-- ORDER BY next_run_at; SQL leaves the order of equals open, here they keep the table's.
unfoldable pub order_by_next_run : List Job → List Job
unfolding insert_by_next_run
order_by_next_run [] = []
order_by_next_run (j ∷ js) = insert_by_next_run j (order_by_next_run js)

-- The SELECT of `_process_due_jobs`.
unfoldable pub candidate_ids : Instant → List Job → List Uuid
unfolding is_due order_by_next_run
candidate_ids now table =
    map (λ j. j.id) (take batch_size (order_by_next_run (keep (is_due now) table)))

-- The WHERE of the claim, and what it sets.
unfoldable pub is_claimable : Uuid → Instant → Job → Bool
unfolding is_due
is_claimable job_id now job = job.id == job_id && is_due now job

unfoldable pub take_lease : Str → Instant → Instant → Job → Job
take_lease worker_id lease_until now job = record job {
  status = running;
  claimed_by = some worker_id;
  lease_until = some lease_until;
  updated_at = some now;
}

-- RETURNING job_name, interval_seconds: at most one row, since `id` is the primary key.
returning : Instant → Option Job → Option (Str × ℕ)
returning now none = none
returning now (some job) =
    if is_due now job then some (job.job_name, job.interval_seconds) else none

-- The claim of `_execute_job`, which computes the lease by an earlier reading of the clock.
unfoldable pub claim :
    Str
    → Uuid
    → (lease_seconds : ℕ) → (read_at now : Instant) → List Job
    → Option (Str × ℕ) × List Job
unfolding is_claimable take_lease returning
claim worker_id job_id lease_seconds read_at now table = (
  returning now (find_row job_id table),
  update_where (is_claimable job_id now)
      (take_lease worker_id (read_at + lease_seconds * second) now) table,
)

-- `error[-500:] if error else None`, where an empty text is false.
unfoldable pub stored_error : Option Str → Option Str
stored_error none = none
stored_error (some []) = none
stored_error (some (c ∷ s)) = some (drop (length (c ∷ s) - 500) (c ∷ s))

unfoldable pub finished : Instant → ℕ → Option Str → Job → Job
unfolding stored_error
finished now interval_seconds error job = record job {
  status = pending;
  claimed_by = none;
  lease_until = none;
  next_run_at = now + interval_seconds * second;
  last_run_at = some now;
  run_count = job.run_count + 1;
  last_error = stored_error error;
  updated_at = some now;
}

-- Phase 3 of `_execute_job`: the WHERE names the row alone, not the claim.
unfoldable pub reschedule : Uuid → Instant → ℕ → Option Str → List Job → List Job
unfolding finished
reschedule job_id now interval_seconds error table =
    update_where (λ job. job.id == job_id) (finished now interval_seconds error) table

missing_handler : Str → Str
missing_handler job_name = codes "No handler registered for job '" ++ (job_name ++ codes "'")

-- How phase 2 ends: with an error text or none, or by a cancellation that leaves `_execute_job`.
pub data RunResult : Type 0 where
  ran : Option Str → RunResult
  aborted : RunResult

unfoldable pub run_result : Outcome → RunResult
run_result returned = ran none
run_result (raised tb) = ran (some tb)
run_result cancelled = aborted

-- What the world gives one `_execute_job`: its clock readings, and what other workers do to the
-- table between the claim and the last statement.
pub record JobTurn : Type 0 where
  pub lease_read_at : Instant
  pub claimed_at : Instant
  pub rescheduled_at : Instant
  pub meanwhile : List Job → List Job

-- The part of the settings that the job worker reads.
pub record JobSettings : Type 0 where
  pub lease_seconds : ℕ
  pub handler_timeout_seconds : ℕ

pub data JobEnd : Type 0 where
  not_claimed : JobEnd
  rescheduled : Option Str → JobEnd
  interrupted : JobEnd

module _ {W : Type 0} (settings : JobSettings) (jobs : JobRegistry W) (worker_id : Str) where
  -- Phase 2.
  unfoldable pub run_handler : Str → W → RunResult × W
  unfolding run_result missing_handler
  run_handler job_name w = elim (Registry.get job_name jobs) [
    | none ↦ (ran (some (missing_handler job_name)), w)
    | some handler ↦ let (o, w') = handler settings.handler_timeout_seconds w in (run_result o, w')
  ]

  unfoldable pub execute_job : JobTurn → Uuid → List Job → W → JobEnd × List Job × W
  unfolding claim reschedule run_handler
  execute_job turn job_id table w =
      let (row, table') =
        claim worker_id job_id settings.lease_seconds turn.lease_read_at turn.claimed_at table in
      elim row [
        | none ↦ (not_claimed, table', w)
        | some (job_name, interval_seconds) ↦
            let (r, w') = run_handler job_name w in
            elim r [
              | aborted ↦ (interrupted, turn.meanwhile table', w')
              | ran error ↦ (
                rescheduled error,
                reschedule job_id turn.rescheduled_at interval_seconds error
                    (turn.meanwhile table'),
                w',
              )
            ]
      ]

  -- The loop over the candidates; `turns` are their turns, in order. `false`: a cancellation, or
  -- no turn is left.
  unfoldable pub execute_jobs : List JobTurn → List Uuid → List Job → W → Bool × List Job × W
  execute_jobs turns [] table w = (true, table, w)
  execute_jobs [] (i ∷ ids) table w = (false, table, w)
  execute_jobs (turn ∷ turns) (i ∷ ids) table w =
      let (end, table', w') = execute_job turn i table w in
      elim end [ interrupted ↦ (false, table', w') | _ ↦ execute_jobs turns ids table' w' ]

  unfoldable pub process_due_jobs : Instant → List JobTurn → List Job → W → Bool × List Job × W
  unfolding execute_jobs
  process_due_jobs now turns table w = execute_jobs turns (candidate_ids now table) table w

  -- One turn of the main loop: recovery, then the due jobs.
  unfoldable pub poll : Instant → Instant → List JobTurn → List Job → W → Bool × List Job × W
  unfolding process_due_jobs
  poll recovered_at selected_at turns table w =
      process_due_jobs selected_at turns (recover_stale_jobs recovered_at table) w
