-- ===== src/Tracking/Ingest/AsJob.antt =====
-- The refresh as the job worker runs it (app/core/jobs/handlers/tle_refresh.py under
-- app/core/jobs/worker.py).
use apsis.Prelude.{
  ℕ, Str, codes, Instant, Uuid, Bool, true, Option, none, some, List, [], ◌∷◌, lookup, Outcome,
  returned, cancelled, inl, inr, ◌⊎◌, ◌≡◌, refl, sym, ◌∙◌, ap,
}
use apsis.Celestrak.Types.{
  TleRecord, Result, celestrak_error, tle_not_found, rate_limited, transient,
}
use apsis.Jobs.Model.{Job, find_row}
use apsis.Jobs.Registry.{JobFunc, JobRegistry}
use apsis.Jobs.Registry
use apsis.Jobs.Worker.{
  JobSettings, JobTurn, RunResult, ran, run_result, JobEnd, is_due, rescheduled, run_handler,
  execute_job,
}
use apsis.Jobs.Worker.Run.{Reran, execute_job-Reran}
use apsis.Tracking.Models.{
  Database, Server, Failure, not_found, conflict, celestrak, httpx, value_error, integrity_error,
  data_error, key_error, attribute_error, Attempt-cases, done, raised,
}
use apsis.Tracking.Ingest.{ingest, close_failed, tle_refresh}

module _ {Float Wkb : Type 0} (server : Server) (max_retries : ℕ)
    (tle_epoch : Str → Str → Option Instant) (format_exc : Failure → Str)
    (fetched : Result (List TleRecord)) where
  -- What the job function ends with, when the runtime lets it end by itself.
  unfoldable pub ended : Option Failure × Database Float Wkb → Outcome × Database Float Wkb
  ended (none, db) = (returned, db)
  ended (some failure, db) = (Outcome.raised (format_exc failure), db)

  abbrev pub refresh_job : JobFunc (Database Float Wkb)
  refresh_job timeout db = ended (tle_refresh server max_retries tle_epoch fetched db)

  -- `@job_registry.register("tle_refresh")`
  unfoldable pub refresh_jobs : JobRegistry (Database Float Wkb)
  unfolding Registry.register
  refresh_jobs = Registry.register (codes "tle_refresh") refresh_job []

  registered : Registry.get (codes "tle_refresh") refresh_jobs ≡ some refresh_job
  unfolding refresh_jobs Registry.register Registry.get lookup apsis.Prelude.insert
      apsis.Prelude.str_eq
  registered = refl

  handled :
      (settings : JobSettings) (worker_id : Str) (db db' : Database Float Wkb) (o : Outcome)
      → ended (tle_refresh server max_retries tle_epoch fetched db) ≡ (o, db')
      → run_handler settings refresh_jobs worker_id (codes "tle_refresh") db ≡ (run_result o, db')
  unfolding run_handler
  handled settings worker_id db db' o h = rw (registered, run_handler, h) refl

  went :
      (db db' : Database Float Wkb) (changed : ℕ)
      → ingest server max_retries tle_epoch fetched db ≡ done (changed, db')
      → ended (tle_refresh server max_retries tle_epoch fetched db) ≡ (returned, db')
  unfolding tle_refresh ended
  went db db' changed h = rw (h, tle_refresh) refl

  closed :
      (db : Database Float Wkb) (failure : Failure)
      → ingest server max_retries tle_epoch fetched db ≡ raised failure
      → tle_refresh server max_retries tle_epoch fetched db ≡ (close_failed failure, db)
  unfolding tle_refresh
  closed db failure h = rw (h, tle_refresh) refl

  skipped :
      (db : Database Float Wkb) (message : Str)
      → ingest server max_retries tle_epoch fetched db ≡ raised (celestrak (rate_limited message))
      → ended (tle_refresh server max_retries tle_epoch fetched db) ≡ (returned, db)
  unfolding ended close_failed
  skipped db message h = ap ended (closed db (celestrak (rate_limited message)) h)

  failed_so :
      (db : Database Float Wkb) (failure : Failure)
      → ingest server max_retries tle_epoch fetched db ≡ raised failure
      → close_failed failure ≡ some failure
      → ended (tle_refresh server max_retries tle_epoch fetched db)
        ≡ (Outcome.raised (format_exc failure), db)
  unfolding ended
  failed_so db failure h counts =
      ap ended (closed db failure h ∙ ap (λ (f : Option Failure). (f, db)) counts)

-- The job treats one error as none.
close_cases :
    (failure : Failure)
    → ((message : Str) × (failure ≡ celestrak (rate_limited message)))
      ⊎ (close_failed failure ≡ some failure)
unfolding close_failed
close_cases (celestrak (rate_limited message)) = inl (message, refl)
close_cases (celestrak (celestrak_error detail)) = inr refl
close_cases (celestrak (tle_not_found group)) = inr refl
close_cases (celestrak (transient cause)) = inr refl
close_cases (httpx raised_by_httpx) = inr refl
close_cases (not_found entity i) = inr refl
close_cases (conflict name) = inr refl
close_cases value_error = inr refl
close_cases integrity_error = inr refl
close_cases data_error = inr refl
close_cases key_error = inr refl
close_cases attribute_error = inr refl

module _ {Float Wkb : Type 0} (server : Server) (max_retries : ℕ)
    (tle_epoch : Str → Str → Option Instant) (format_exc : Failure → Str)
    (fetched : Result (List TleRecord)) (settings : JobSettings) (worker_id : Str) (turn : JobTurn)
    (job_id : Uuid) (table : List Job) (job : Job) (db : Database Float Wkb) where
  -- The run of the job.
  abbrev pub the_run : JobEnd × List Job × Database Float Wkb
  the_run =
      execute_job settings (refresh_jobs server max_retries tle_epoch format_exc fetched) worker_id
        turn job_id table db

  -- The run leaves some tables and its row, with an error text or none.
  pub record Leaves (error : Option Str) (db' : Database Float Wkb) : Type 0 where
    pub ended_with : the_run.0 ≡ rescheduled error
    pub tables : the_run.2 ≡ db'
    pub row : Job
    pub found : find_row job_id the_run.1 ≡ some row
    pub reran : Reran turn.rescheduled_at error job row

  leaves :
      (db' : Database Float Wkb) (o : Outcome) (error : Option Str)
      → find_row job_id table ≡ some job
      → is_due turn.claimed_at job ≡ true
      → ((now : List Job) → find_row job_id (turn.meanwhile now) ≡ find_row job_id now)
      → job.job_name ≡ codes "tle_refresh"
      → ended server max_retries tle_epoch format_exc fetched
          (tle_refresh server max_retries tle_epoch fetched db)
        ≡ (o, db')
      → run_result o ≡ ran error
      → Leaves error db'
  leaves db' o error found due quiet named so told =
      let handled_so =
        handled server max_retries tle_epoch format_exc fetched settings worker_id db db' o so in
      let ran_so =
        ap
          (λ n.
            run_handler settings (refresh_jobs server max_retries tle_epoch format_exc fetched)
              worker_id n db)
          named
        ∙ handled_so in
      let (first, second, row, row_found, reran) =
        execute_job-Reran settings (refresh_jobs server max_retries tle_epoch format_exc fetched)
          worker_id turn job_id table db job error found due quiet
          (ap (λ (r : RunResult × Database Float Wkb). r.0) ran_so ∙ told) in
      record {
        ended_with = first;
        tables = second ∙ ap (λ (r : RunResult × Database Float Wkb). r.1) ran_so;
        row = row;
        found = row_found;
        reran = reran;
      }

  -- The job tle_refresh, due when it is claimed, whose row nobody else changes until the run is over and
  -- whose run is not cut short, leaves the tables in one of three ways: as the refresh of the fetched
  -- records makes them, without an error; as they were and without an error, when CelesTrak limits the
  -- rate; or as they were, with the end of the failure's traceback stored. Each time its row is free
  -- again, due one interval after the last clock reading, with one more run counted.
  pub execute_job-tle_refresh :
      find_row job_id table ≡ some job
      → is_due turn.claimed_at job ≡ true
      → ((now : List Job) → find_row job_id (turn.meanwhile now) ≡ find_row job_id now)
      → job.job_name ≡ codes "tle_refresh"
      → ((changed : ℕ) × (db' : Database Float Wkb) × (ingest server max_retries tle_epoch fetched
              db
            ≡ done (changed, db'))
          × Leaves none db')
        ⊎ (((message : Str) × (ingest server max_retries tle_epoch fetched db
                ≡ raised (celestrak (rate_limited message)))
              × Leaves none db)
            ⊎ ((failure : Failure) × (ingest server max_retries tle_epoch fetched db
                  ≡ raised failure)
                × (close_failed failure ≡ some failure)
                × Leaves (some (format_exc failure)) db))
  unfolding run_result
  execute_job-tle_refresh found due quiet named =
      elim (Attempt-cases (ingest server max_retries tle_epoch fetched db)) [
        | inr ((changed, db'), made) ↦
            let so = went server max_retries tle_epoch format_exc fetched db db' changed made in
            inl (changed, db', made, leaves db' returned none found due quiet named so refl)
        | inl (failure, broke) ↦ elim (close_cases failure) [
          | inl (message, limited) ↦
              let limits = broke ∙ ap raised limited in
              let so = skipped server max_retries tle_epoch format_exc fetched db message limits in
              inr (inl (message, limits, leaves db returned none found due quiet named so refl))
          | inr counts ↦
              let so =
                failed_so server max_retries tle_epoch format_exc fetched db failure broke counts in
              inr (
                inr (
                  failure,
                  broke,
                  counts,
                  leaves db (Outcome.raised (format_exc failure)) (some (format_exc failure)) found
                      due quiet named so refl,
                ))
        ]
      ]
