-- ===== src/Tests/Jobs.antt =====
-- Jobs at concrete inputs.
use apsis.Prelude.{
  ℕ, Str, codes, second, ◌+◌, ◌*◌, ◌≤◌, Outcome, raised, none, some, List, [], ◌∷◌, ◌++◌, All,
  lookup, str_eq, length, keep, map, ◌≡◌, refl, arith,
}
use mathlib.Core.List.{Perm}
use apsis.Jobs.Model.{pending, running, Job, find_row, update_where}
use apsis.Jobs.Registry
use apsis.Jobs.Registry.{JobRegistry}
use apsis.Jobs.Worker.{
  JobSettings, JobTurn, claim, recover_stale_jobs, recovered_count, candidate_ids, batch_size,
  is_due, execute_job, rescheduled, run_handler,
}
use apsis.Jobs.Worker.Statements.{claim_exclusive}
use apsis.Jobs.Worker.Run.{Reran, execute_job-Reran}
use apsis.Jobs.Worker.Recovery.{Recovers, IsKept, recover_stale_jobs_lem}
use apsis.Jobs.Worker.Candidates.{IsOrdered, candidate_ids_lem}
use apsis.Jobs.System.{
  System, idle, busy, update, OnTime, validate_lease_invariant, claims, passes, Reach, here, next,
}
use apsis.Jobs.System.Preserved.{no_double_run}

abbrev settings : JobSettings
settings = record { lease_seconds = 120; handler_timeout_seconds = 55 }

abbrev tle_job : Job
tle_job = record {
  id = 7;
  job_name = codes "tle_refresh";
  description = none;
  interval_seconds = 7200;
  status = pending;
  last_run_at = none;
  next_run_at = 100;
  last_error = none;
  run_count = 0;
  claimed_by = none;
  lease_until = none;
  created_at = 0;
  updated_at = none;
}

abbrev table : List Job
table = tle_job ∷ []

abbrev worker : ℕ → Str
worker i = i ∷ []

worker_distinct : (i j : ℕ) → worker i ≡ worker j → i ≡ j
worker_distinct i j h = cc h

claim_exclusive_example :
    (claim (worker 2) 7 120 160 170 (claim (worker 1) 7 120 150 151 table).1).0 ≡ none
claim_exclusive_example =
    claim_exclusive 7 table (worker 1) (worker 2) 120 120 150 151 160 170
      {row = (codes "tle_refresh", 7200)} (unfold claim find_row in refl)

-- Worker 1 claims the job, and 60 seconds go by.
abbrev claimed_state : System
claimed_state = record {
  now = 200;
  table = (claim (worker 1) 7 120 200 200 table).1;
  phase = update (λ i. idle) 1 (busy 7 200 7200);
}

abbrev later_state : System
later_state = record {
  now = 200 + 60 * second;
  table = claimed_state.table;
  phase = claimed_state.phase;
}

reaches :
    Reach settings 55 worker (record { now = 200; table = table; phase = λ i. idle }) later_state
reaches =
    next
      (next here (
        claims 1 7 (codes "tle_refresh") 7200 claimed_state refl (unfold claim find_row in refl)
          refl))
      (passes (200 + 60 * second) later_state (omega arith) on_time refl)
  where
    on_time : (i : ℕ) → OnTime settings 55 (200 + 60 * second) (later_state.phase i)
    on_time i = ground arith

no_double_run_example : ◌≡◌ {A = ℕ} 1 1
no_double_run_example =
    no_double_run settings 55 worker worker_distinct (unfold validate_lease_invariant in refl)
      (omega arith) table 200 {s = later_state} reaches 1 1 7 200 200 7200 7200 refl refl

abbrev turn : JobTurn
turn = record { lease_read_at = 150; claimed_at = 151; rescheduled_at = 900; meanwhile = λ t. t }

abbrev handler : ℕ → ℕ → Outcome × ℕ
handler timeout w = (raised (codes "boom"), w + 1)

abbrev registry : JobRegistry ℕ
registry = (codes "tle_refresh", handler) ∷ []

execute_job-Reran_example :
    let result = execute_job settings registry (worker 1) turn 7 table 0 in
    (result.0 ≡ rescheduled (some (codes "boom")))
    × (result.2 ≡ (run_handler settings registry (worker 1) (codes "tle_refresh") 0).1)
    × (job' : Job) × (find_row 7 result.1 ≡ some job')
    × Reran 900 (some (codes "boom")) tle_job job'
execute_job-Reran_example =
    execute_job-Reran settings registry (worker 1) turn 7 table 0 tle_job (some (codes "boom"))
      (unfold find_row in refl) (unfold is_due in refl) (λ t. refl)
      (unfold run_handler Registry.get lookup str_eq in refl)

-- A job whose worker died with a lease until 100, and one that runs without a lease.
abbrev zombies : List Job
zombies =
    record tle_job { status = running; claimed_by = some (worker 1); lease_until = some 100 }
    ∷ record tle_job { id = 8; status = running; claimed_by = some (worker 2); lease_until = none }
    ∷ table

recover_stale_jobs_lem_example :
    Recovers 500 zombies (recover_stale_jobs 500 zombies) (recovered_count 500 zombies)
    × All (IsKept 500) (recover_stale_jobs 500 zombies)
recover_stale_jobs_lem_example = recover_stale_jobs_lem 500 zombies

candidate_ids_lem_example :
    (batch : List Job) × (left : List Job) × (candidate_ids 500 table ≡ map (λ j. j.id) batch)
    × (length batch ≤ batch_size)
    × IsOrdered (batch ++ left)
    × Perm (batch ++ left) (keep (is_due 500) table)
candidate_ids_lem_example = candidate_ids_lem 500 table

-- The run counts once and the row is due again 7200 seconds later.
runs_once :
    (find_row 7 (execute_job settings registry (worker 1) turn 7 table 0).1)
    ≡ some (record tle_job {
      status = pending;
      last_run_at = some 900;
      next_run_at = 900 + 7200 * second;
      last_error = some (codes "boom");
      run_count = 1;
      updated_at = some 900;
    })
unfolding execute_job find_row update_where Registry.get lookup str_eq
runs_once = refl
