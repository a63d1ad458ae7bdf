-- ===== src/App.antt =====
-- The life of the application (app/main.py), its checks at startup (app/core/startup.py), its health
-- (app/api/v1/health.py), and the start and stop of the workers (app/core/events/worker.py, and the same
-- code in app/core/jobs/worker.py).
pub mod Lifecycle
pub mod Settings
use apsis.Prelude.{
  ℕ, ◌-◌, Str, codes, str_eq, contains, leb, Bool, true, false, not, ◌&&◌, ◌||◌, Option, none, some,
  List, [], ◌∷◌, map, if◌then◌else◌,
}
use apsis.Events.Worker.Loop.{Call, returns, raises, cancels}

-- The `_task` of a worker: none, one that runs, or one that is done.
pub data Task : Type 0 where
  no_task running over : Task

pub record Worker : Type 0 where
  pub task : Task
  pub shutdown_event : Bool

abbrev pub new_worker : Worker
new_worker = record { task = no_task; shutdown_event = false }

-- `start`
unfoldable pub start : Worker → Worker
start worker = record { task = running; shutdown_event = false }

-- `stop`: whether it raises, and the worker after it. `answer` says how a task that runs answers its
-- cancellation: `cancels` is the CancelledError that is suppressed, `raises` another error.
unfoldable pub stop : (answer : Call) → Worker → Bool × Worker
stop answer worker = elim worker.task [
  | no_task ↦ (false, record { task = no_task; shutdown_event = true })
  | over ↦ (false, record { task = over; shutdown_event = true })
  | running ↦ elim answer [
    | raises ↦ (true, record { task = over; shutdown_event = true })
    | _ ↦ (false, record { task = over; shutdown_event = true })
  ]
]

-- `upper` on ASCII letters.
unfoldable pub upper : Str → Str
upper [] = []
upper (c ∷ s) = (if leb 97 c && leb c 122 then c - 32 else c) ∷ upper s

abbrev or_empty : Option Str → Str
or_empty none = []
or_empty (some s) = s

abbrev utc_variants : List Str
utc_variants = codes "UTC" ∷ codes "GMT" ∷ codes "UCT" ∷ codes "UNIVERSAL" ∷ [] ∷ []

-- `check_utc_timezone`: false if it raises. `tzname` is the first name, if there is one.
unfoldable pub check_utc_timezone : (environment : Str) → (tzname tz : Option Str) → Bool
unfolding upper
check_utc_timezone environment tzname tz =
    let is_utc =
      contains utc_variants (upper (or_empty tzname))
      || str_eq (upper (or_empty tz)) (codes "UTC") in
    is_utc || not (str_eq environment (codes "prod"))

-- `check_database`: whether it says "OK"; a timeout is an `Exception`, and `none` a cancellation.
unfoldable pub check_database : Call → Option Bool
check_database returns = some true
check_database raises = some false
check_database cancels = none

-- What the application keeps.
pub record State : Type 0 where
  pub ready : Bool
  pub outbox_worker : Worker
  pub job_worker : Worker
  pub disposed : Bool

unfoldable pub start_workers : Bool → State
unfolding start
start_workers true = record {
  ready = true;
  outbox_worker = start new_worker;
  job_worker = start new_worker;
  disposed = false;
}
start_workers false = record {
  ready = false;
  outbox_worker = new_worker;
  job_worker = new_worker;
  disposed = false;
}

-- `lifespan` up to its `yield`; `none` if it is left by an error.
unfoldable pub startup :
    (environment : Str) → (tzname tz : Option Str) → (database : Call) → Option State
unfolding check_utc_timezone check_database start_workers
startup environment tzname tz database =
    if check_utc_timezone environment tzname tz
    then elim (check_database database) [ none ↦ none | some is_ok ↦ some (start_workers is_ok) ]
    else none

-- `lifespan` after its `yield`: whether it comes to its end, and the state it leaves.
unfoldable pub shutdown : (job_answer outbox_answer : Call) → State → Bool × State
unfolding stop
shutdown job_answer outbox_answer app =
    let (job_raised, job_worker) = stop job_answer app.job_worker in
    let (outbox_raised, outbox_worker) = stop outbox_answer app.outbox_worker in
    if job_raised
    then (false, record app { job_worker = job_worker })
    else if outbox_raised
    then (false, record app { job_worker = job_worker; outbox_worker = outbox_worker })
    else (
      true,
      record {
        ready = false;
        outbox_worker = outbox_worker;
        job_worker = job_worker;
        disposed = true;
      },
    )

-- `GET /health/liveness` and `GET /health/readiness`: the status code and the text of `status`. A
-- cancelled request gets no response.
unfoldable pub liveness : ℕ × Str
liveness = (200, codes "alive")

unfoldable pub readiness : State → (database : Call) → Option (ℕ × Str)
readiness app database = if not app.ready then some (503, codes "not ready") else elim database [
  | returns ↦ some (200, codes "ready")
  | raises ↦ some (503, codes "database unavailable")
  | cancels ↦ none
]

-- What happens between startup and shutdown: a worker's task ends by itself.
pub data Mishap : Type 0 where
  outbox_ends job_ends : Mishap

abbrev end_task : Worker → Worker
end_task worker = elim worker.task [ running ↦ record worker { task = over } | _ ↦ worker ]

unfoldable pub live : List Mishap → State → State
live [] app = app
live (outbox_ends ∷ mishaps) app =
    live mishaps (record app { outbox_worker = end_task app.outbox_worker })
live (job_ends ∷ mishaps) app = live mishaps (record app { job_worker = end_task app.job_worker })
