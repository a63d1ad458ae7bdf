-- ===== src/App/Lifecycle.antt =====
-- What holds from the startup of the application to its end.
use apsis.Prelude.{
  ℕ, Str, codes, Bool, true, false, Option, none, some, List, [], ◌∷◌, ◌≡◌, refl, ◌∙◌, ap, arith,
}
use apsis.Events.Worker.Loop.{Call, returns, raises, cancels}
use apsis.Events.Worker.Loop.Crash.{does_raise}
use apsis.App.{
  running, Worker, start, stop, State, check_database, start_workers, startup, shutdown, readiness,
  Mishap, outbox_ends, job_ends, live,
}

abbrev pub does_return : Call → Bool
does_return returns = true
does_return raises = false
does_return cancels = false

abbrev pub is_running : Worker → Bool
is_running worker = elim worker.task [ running ↦ true | _ ↦ false ]

-- What a startup that succeeds has started.
started :
    (environment : Str) (tzname tz : Option Str) (database : Call) (app : State)
    → startup environment tzname tz database ≡ some app
    → app ≡ start_workers (does_return database)
unfolding startup check_database
started environment tzname tz database app h = ground arith

workers_outbox_worker :
    (database : Call)
    → is_running (start_workers (does_return database)).outbox_worker ≡ does_return database
unfolding start_workers start
workers_outbox_worker database = ground arith

workers_job_worker :
    (database : Call)
    → is_running (start_workers (does_return database)).job_worker ≡ does_return database
unfolding start_workers start
workers_job_worker database = ground arith

workers_ready :
    (database : Call) → (start_workers (does_return database)).ready ≡ does_return database
unfolding start_workers
workers_ready database = ground arith

live_ready : (mishaps : List Mishap) (app : State) → (live mishaps app).ready ≡ app.ready
unfolding live
live_ready [] app = refl
live_ready (outbox_ends ∷ mishaps) app = live_ready mishaps _
live_ready (job_ends ∷ mishaps) app = live_ready mishaps _

stop_calm :
    (answer : Call) (worker : Worker)
    → does_raise answer ≡ false
    → ((stop answer worker).0 ≡ false)
      × (is_running (stop answer worker).1 ≡ false)
      × ((stop answer worker).1.shutdown_event ≡ true)
unfolding stop
stop_calm answer worker calm = (ground arith, ground arith, ground arith)

shutdown_calm :
    (job_answer outbox_answer : Call) (app : State)
    → (stop job_answer app.job_worker).0 ≡ false
    → (stop outbox_answer app.outbox_worker).0 ≡ false
    → shutdown job_answer outbox_answer app ≡ (
      true,
      record {
        ready = false;
        outbox_worker = (stop outbox_answer app.outbox_worker).1;
        job_worker = (stop job_answer app.job_worker).1;
        disposed = true;
      },
    )
unfolding shutdown
shutdown_calm job_answer outbox_answer app job outbox = rw (job, outbox) refl

-- A state after the end.
pub record IsOver (app : State) : Type 0 where
  pub unready : app.ready ≡ false
  pub disposed : app.disposed ≡ true
  pub no_outbox : is_running app.outbox_worker ≡ false
  pub no_job : is_running app.job_worker ≡ false
  pub told_outbox : app.outbox_worker.shutdown_event ≡ true
  pub told_job : app.job_worker.shutdown_event ≡ true

shutdown-IsOver :
    (job_answer outbox_answer : Call) (app : State)
    → does_raise job_answer ≡ false
    → does_raise outbox_answer ≡ false
    → (end : State) × (shutdown job_answer outbox_answer app ≡ (true, end)) × IsOver end
shutdown-IsOver job_answer outbox_answer app job outbox =
    let (job_quiet, job_off, job_told) = stop_calm job_answer app.job_worker job in
    let (outbox_quiet, outbox_off, outbox_told) =
      stop_calm outbox_answer app.outbox_worker outbox in
    (
      _,
      shutdown_calm job_answer outbox_answer app job_quiet outbox_quiet,
      record {
        unready = refl;
        disposed = refl;
        no_outbox = outbox_off;
        no_job = job_off;
        told_outbox = outbox_told;
        told_job = job_told;
      },
    )

-- What a readiness probe tells of the database, at startup and now.
abbrev pub told_of : (at_startup now : Call) → Option (ℕ × Str)
told_of returns returns = some (200, codes "ready")
told_of returns raises = some (503, codes "database unavailable")
told_of returns cancels = none
told_of raises now = some (503, codes "not ready")
told_of cancels now = some (503, codes "not ready")

readiness-started :
    (database now : Call) (app : State)
    → app.ready ≡ does_return database
    → readiness app now ≡ told_of database now
unfolding readiness
readiness-started database now app h = ground arith

-- An application that starts up runs both workers if the database answered the check, and neither otherwise.
-- Whatever tasks end after that, a readiness probe tells "ready" with status 200 exactly if the
-- database answered at startup and answers now, and otherwise status 503, unless it is cancelled. A shutdown
-- at which no task answers its cancellation with another error comes to its end: both workers' shutdown events are set,
-- no task runs, the engine is disposed, and a probe tells "not ready", whatever the database does.
pub startup-lives :
    (environment : Str) (tzname tz : Option Str) (database : Call) (app : State)
    (mishaps : List Mishap) (now later job_answer outbox_answer : Call)
    → startup environment tzname tz database ≡ some app
    → does_raise job_answer ≡ false
    → does_raise outbox_answer ≡ false
    → (is_running app.outbox_worker ≡ does_return database)
      × (is_running app.job_worker ≡ does_return database)
      × (readiness (live mishaps app) now ≡ told_of database now)
      × ((end : State) × (shutdown job_answer outbox_answer (live mishaps app) ≡ (true, end))
          × IsOver end
          × (readiness end later ≡ some (503, codes "not ready")))
startup-lives environment tzname tz database app mishaps now later job_answer outbox_answer up job
      outbox =
    let begun = started environment tzname tz database app up in
    let (end, closes, ended) =
      shutdown-IsOver job_answer outbox_answer (live mishaps app) job outbox in
    (
      ap (λ (a : State). is_running a.outbox_worker) begun ∙ workers_outbox_worker database,
      ap (λ (a : State). is_running a.job_worker) begun ∙ workers_job_worker database,
      readiness-started database now (live mishaps app)
          (live_ready mishaps app ∙ ap (λ (a : State). a.ready) begun ∙ workers_ready database),
      (end, closes, ended, readiness-started raises later end ended.unready),
    )
