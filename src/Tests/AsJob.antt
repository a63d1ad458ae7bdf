-- ===== src/Tests/AsJob.antt =====
-- The refresh as a job: CelesTrak limits the rate.
use apsis.Prelude.{ℕ, Str, codes, Option, none, some, List, [], ◌∷◌, ◌⊎◌, ◌≡◌, refl}
use apsis.Celestrak.Types.{TleRecord, Result, err, rate_limited}
use apsis.Jobs.Model.{Job, pending, find_row}
use apsis.Jobs.Worker.{JobSettings, JobTurn, is_due}
use apsis.Tracking.Models.{Database, Failure, celestrak, done, raised}
use apsis.Tracking.Ingest.{ingest, close_failed}
use apsis.Tracking.Ingest.AsJob.{Leaves, execute_job-tle_refresh}
use apsis.Tests.Ingest.{server, epoch_of, before}

abbrev limited : Result (List TleRecord)
limited = err (rate_limited (codes "403"))

abbrev settings : JobSettings
settings = record { lease_seconds = 120; handler_timeout_seconds = 55 }

abbrev refresh_row : Job
refresh_row = record {
  id = 7;
  job_name = codes "tle_refresh";
  description = none;
  interval_seconds = 7200;
  status = pending;
  next_run_at = 100;
  last_run_at = none;
  last_error = none;
  claimed_by = none;
  lease_until = none;
  run_count = 0;
  created_at = 0;
  updated_at = none;
}

abbrev turn : JobTurn
turn = record { lease_read_at = 150; claimed_at = 151; rescheduled_at = 900; meanwhile = λ t. t }

abbrev format_exc : Failure → Str
format_exc failure = codes "Traceback"

abbrev LeavesHere : Option Str → Database ℕ ℕ → Type 0
LeavesHere error db' =
    Leaves server 8 epoch_of format_exc limited settings (codes "host:1") turn 7 (refresh_row ∷ [])
      refresh_row before error db'

execute_job-tle_refresh_example :
    ((changed : ℕ) × (db' : Database ℕ ℕ) × (ingest server 8 epoch_of limited before
        ≡ done (changed, db'))
      × LeavesHere none db')
    ⊎ (((message : Str) × (ingest server 8 epoch_of limited before
            ≡ raised (celestrak (rate_limited message)))
          × LeavesHere none before)
        ⊎ ((failure : Failure) × (ingest server 8 epoch_of limited before ≡ raised failure)
            × (close_failed failure ≡ some failure)
            × LeavesHere (some (format_exc failure)) before))
execute_job-tle_refresh_example =
    execute_job-tle_refresh server 8 epoch_of format_exc limited settings (codes "host:1") turn 7
      (refresh_row ∷ []) refresh_row before (unfold find_row in refl) (unfold is_due in refl)
      (λ t. refl) refl
