-- ===== src/Jobs/Worker/Statements.antt =====
-- The three statements on the row of one job.
use mathlib.Core.Option
use apsis.Prelude.{
  ℕ, ◌+◌, ◌*◌, second, Instant, Uuid, Str, true, Option, none, some, List, [], ◌∷◌, ◌==◌, ◌≡◌, refl,
  sym, ap, ◌∙◌, arith, if◌then◌else◌, inl, inr, Bool-cases,
}
use apsis.Jobs.Model.{Job, find_row, find_row-update_where}
use apsis.Jobs.Worker.{
  is_stale, release, recover_stale_jobs, is_due, is_claimable, take_lease, returning, claim,
  finished, reschedule,
}

pub find_row-recover :
    (now : Instant) (i : Uuid) (table : List Job)
    → find_row i (recover_stale_jobs now table)
      ≡ Option.map (λ r. if is_stale now r then release r else r) (find_row i table)
unfolding recover_stale_jobs
find_row-recover now i table = find_row-update_where (is_stale now) release (λ r. refl) i table

pub find_row-claim :
    (worker_id : Str) (job_id : Uuid) (lease_seconds : ℕ) (read_at now : Instant) (i : Uuid)
    (table : List Job)
    → find_row i (claim worker_id job_id lease_seconds read_at now table).1
      ≡ Option.map
          (λ r.
            if is_claimable job_id now r
            then take_lease worker_id (read_at + lease_seconds * second) now r
            else r)
          (find_row i table)
unfolding claim
find_row-claim worker_id job_id lease_seconds read_at now i table =
    find_row-update_where (is_claimable job_id now)
      (take_lease worker_id (read_at + lease_seconds * second) now) (λ r. refl) i table

pub find_row-reschedule :
    (job_id : Uuid) (now : Instant) (interval_seconds : ℕ) (error : Option Str) (i : Uuid)
    (table : List Job)
    → find_row i (reschedule job_id now interval_seconds error table)
      ≡ Option.map
          (λ r. if r.id == job_id then finished now interval_seconds error r else r)
          (find_row i table)
unfolding reschedule
find_row-reschedule job_id now interval_seconds error i table =
    find_row-update_where (λ r. r.id == job_id) (finished now interval_seconds error) (λ r. refl) i
      table

-- A row found by a key has that key.
pub id-find_row : (i : Uuid) (table : List Job) {r : Job} → find_row i table ≡ some r → r.id ≡ i
unfolding find_row
id-find_row i [] h = absurd (cc)
id-find_row i (x ∷ xs) {r} h = elim (Bool-cases (x.id == i)) [
  | inl here ↦ ground arith
  | inr there ↦ id-find_row i xs (rw (there, find_row) at h)
]

-- What the claim returns, by the row of the job.
claim-returns :
    (worker_id : Str) (job_id : Uuid) (lease_seconds : ℕ) (read_at now : Instant) (table : List Job)
    → (claim worker_id job_id lease_seconds read_at now table).0
      ≡ returning now (find_row job_id table)
unfolding claim
claim-returns worker_id job_id lease_seconds read_at now table = refl

returning-taken :
    (worker_id : Str) (job_id : Uuid) (lease_until now now2 : Instant) (o : Option Job)
    {row : Str × ℕ}
    → ((r : Job) → o ≡ some r → r.id ≡ job_id)
    → returning now o ≡ some row
    → returning now2 (
        Option.map
          (λ r. if is_claimable job_id now r then take_lease worker_id lease_until now r else r)
          o)
      ≡ none
unfolding returning is_claimable take_lease is_due
returning-taken worker_id job_id lease_until now now2 none keyed h = absurd (cc)
returning-taken worker_id job_id lease_until now now2 (some r) keyed h =
    ground (arith, keyed r refl)

module _ (job_id : Uuid) (table : List Job) where
  -- Claims are exclusive: once one worker's claim of a job has returned its row, a claim of the same
  -- job by any worker at any later or earlier reading returns nothing, as long as no other statement
  -- changes the table.
  pub claim_exclusive :
      (w1 w2 : Str) (lease1 lease2 : ℕ) (read1 now1 read2 now2 : Instant) {row : Str × ℕ}
      → (claim w1 job_id lease1 read1 now1 table).0 ≡ some row
      → (claim w2 job_id lease2 read2 now2 (claim w1 job_id lease1 read1 now1 table).1).0 ≡ none
  claim_exclusive w1 w2 lease1 lease2 read1 now1 read2 now2 h =
      claim-returns w2 job_id lease2 read2 now2 (claim w1 job_id lease1 read1 now1 table).1
      ∙ ap (returning now2) (find_row-claim w1 job_id lease1 read1 now1 job_id table)
      ∙ returning-taken w1 job_id (read1 + lease1 * second) now1 now2 (find_row job_id table)
          (λ r e. id-find_row job_id table e)
          (sym (claim-returns w1 job_id lease1 read1 now1 table) ∙ h)

  module _ (worker_id : Str) (lease_seconds : ℕ) (read_at now : Instant) where
    -- A claim of a due job returns its name and interval.
    pub claim_due :
        (job : Job)
        → find_row job_id table ≡ some job
        → is_due now job ≡ true
        → (claim worker_id job_id lease_seconds read_at now table).0
          ≡ some (job.job_name, job.interval_seconds)
    unfolding returning
    claim_due job found due =
        claim-returns worker_id job_id lease_seconds read_at now table
        ∙ ap (returning now) found
        ∙ rw due

    -- And it leaves its row under the lease.
    pub claim_leases :
        (job : Job)
        → find_row job_id table ≡ some job
        → is_due now job ≡ true
        → find_row job_id (claim worker_id job_id lease_seconds read_at now table).1
          ≡ some (take_lease worker_id (read_at + lease_seconds * second) now job)
    unfolding is_claimable
    claim_leases job found due =
        rw (find_row-claim worker_id job_id lease_seconds read_at now job_id table)
          (rw found (ground (arith, due, id-find_row job_id table found)))

returning-some :
    (now : Instant) (o : Option Job) {x : Str × ℕ}
    → returning now o ≡ some x
    → (job : Job) × (o ≡ some job) × (is_due now job ≡ true)
unfolding returning
returning-some now none h = absurd (cc)
returning-some now (some job) h = (job, refl, ground arith)

-- A claim that returns found its row due, and has put it under its lease.
pub claim-some :
    (worker_id : Str) (job_id : Uuid) (lease_seconds : ℕ) (read_at now : Instant) (table : List Job)
    {x : Str × ℕ}
    → (claim worker_id job_id lease_seconds read_at now table).0 ≡ some x
    → (job : Job) × (find_row job_id table ≡ some job)
      × (find_row job_id (claim worker_id job_id lease_seconds read_at now table).1
          ≡ some (take_lease worker_id (read_at + lease_seconds * second) now job))
claim-some worker_id job_id lease_seconds read_at now table {x = x} h =
    let (job, found, due) =
      returning-some now (find_row job_id table) {x = x}
        (sym (claim-returns worker_id job_id lease_seconds read_at now table) ∙ h) in
    (job, found, claim_leases job_id table worker_id lease_seconds read_at now job found due)
