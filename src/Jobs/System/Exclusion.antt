-- ===== src/Jobs/System/Exclusion.antt =====
-- No job runs on two workers at once.
use apsis.Prelude.{
  ℕ, ◌+◌, ◌*◌, ◌≤◌, second, Instant, Uuid, Str, Option, some, List, ◌≡◌, ◌≢◌, refl, arith,
}
use apsis.Jobs.Model.{running, Job, find_row}
use apsis.Jobs.Worker.{
  JobSettings, claim, reschedule, recover_stale_jobs, is_claimable, is_due, is_stale, take_lease,
}
use apsis.Jobs.Worker.Statements.{
  find_row-recover, find_row-claim, find_row-reschedule, id-find_row, claim-some,
}
use apsis.Jobs.System.{busy, System, OnTime}

module _ (settings : JobSettings) (slack : ℕ) (worker_id : ℕ → Str) where
  -- What holds of the row of a job while worker `i` is busy with it.
  pub record Leased (table : List Job) (i : ℕ) (job_id : Uuid) (since : Instant) : Type 0 where
    pub row : Job
    pub found : find_row job_id table ≡ some row
    pub running_row : row.status ≡ running
    pub claimed : row.claimed_by ≡ some (worker_id i)
    pub lease : row.lease_until ≡ some (since + settings.lease_seconds * second)

  pub Leased-claim :
      (w : Str) (job_id : Uuid) (read_at now : Instant) (table : List Job) (j : ℕ) (k : Uuid)
      (since : Instant)
      → Leased table j k since
      → Leased (claim w job_id settings.lease_seconds read_at now table).1 j k since
  unfolding is_claimable is_due
  Leased-claim w job_id read_at now table j k since l = record {
    row = l.row;
    found =
        rw (find_row-claim w job_id settings.lease_seconds read_at now k table)
          (rw l.found (ground (arith, l.running_row)));
    running_row = l.running_row;
    claimed = l.claimed;
    lease = l.lease;
  }

  pub Leased-recover :
      (now : Instant) (table : List Job) (j : ℕ) (k : Uuid) (since : Instant)
      → now ≤ since + settings.lease_seconds * second
      → Leased table j k since
      → Leased (recover_stale_jobs now table) j k since
  unfolding is_stale
  Leased-recover now table j k since live l = record {
    row = l.row;
    found = rw (find_row-recover now k table) (rw l.found (ground (arith, l.running_row, l.lease)));
    running_row = l.running_row;
    claimed = l.claimed;
    lease = l.lease;
  }

  pub Leased-reschedule :
      (job_id : Uuid) (now : Instant) (n : ℕ) (error : Option Str) (table : List Job) (j : ℕ)
      (k : Uuid) (since : Instant)
      → k ≢ job_id
      → Leased table j k since
      → Leased (reschedule job_id now n error table) j k since
  Leased-reschedule job_id now n error table j k since apart l = record {
    row = l.row;
    found =
        rw (find_row-reschedule job_id now n error k table)
          (rw l.found (ground (arith, id-find_row k table l.found)));
    running_row = l.running_row;
    claimed = l.claimed;
    lease = l.lease;
  }

  pub Leased-claimed :
      (i : ℕ) (job_id : Uuid) (now : Instant) (table : List Job) {x : Str × ℕ}
      → (claim (worker_id i) job_id settings.lease_seconds now now table).0 ≡ some x
      → Leased (claim (worker_id i) job_id settings.lease_seconds now now table).1 i job_id now
  unfolding take_lease
  Leased-claimed i job_id now table {x} h =
      let (job, _, held) =
        claim-some (worker_id i) job_id settings.lease_seconds now now table {x = x} h in
      record {
        row = take_lease (worker_id i) (now + settings.lease_seconds * second) now job;
        found = held;
        running_row = refl;
        claimed = refl;
        lease = refl;
      }

  pub record Inv (s : System) : Type 0 where
    pub leased :
        (i : ℕ) (job_id : Uuid) (since : Instant) (interval_seconds : ℕ)
        → s.phase i ≡ busy job_id since interval_seconds
        → Leased s.table i job_id since
    pub on_time : (i : ℕ) → OnTime settings slack s.now (s.phase i)

  -- Two workers on one job would both be named in its row.
  pub Inv-exclusive :
      (s : System)
      → ((i j : ℕ) → worker_id i ≡ worker_id j → i ≡ j)
      → Inv s
      → (i j : ℕ) (job_id : Uuid) (since since' : Instant) (n n' : ℕ)
      → s.phase i ≡ busy job_id since n
      → s.phase j ≡ busy job_id since' n'
      → i ≡ j
  Inv-exclusive s distinct inv i j job_id since since' n n' hi hj =
      let a = inv.leased i job_id since n hi in
      let b = inv.leased j job_id since' n' hj in
      distinct i j (ground (arith, a.found, b.found, a.claimed, b.claimed))
