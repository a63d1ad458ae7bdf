-- ===== src/Jobs/Worker/Loop.antt =====
-- The main loop of the job worker (`JobWorker._run` of app/core/jobs/worker.py), over the tables.
use apsis.Prelude.{Str, Instant, Bool, true, false, List, [], ◌∷◌, ◌++◌, All, ◌≡◌, refl, ◌∙◌}
use apsis.Events.Worker.Loop.{
  Call, returns, raises, cancels, Wait, elapsed, shut_down, interrupted, RunEnd, stopped,
  run_cancelled,
}
use apsis.Jobs.Model.{Job}
use apsis.Jobs.Registry.{JobRegistry}
use apsis.Jobs.Worker.{JobSettings, JobTurn, recover_stale_jobs, process_due_jobs}

-- What one pass meets: how the transaction of the recovery and the SELECT of the due jobs end, the clock,
-- the turns of the jobs, and the wait for the shutdown event.
pub record Pass : Type 0 where
  pub recovery : Call
  pub recovered_at : Instant
  pub selection : Call
  pub selected_at : Instant
  pub turns : List JobTurn
  pub wait : Wait

module _ {W : Type 0} (settings : JobSettings) (jobs : JobRegistry W) (worker_id : Str) where
  -- The first `try`: `true` unless a cancellation leaves it; an error is logged.
  unfoldable pub try_pass : Pass → List Job → W → Bool × List Job × W
  unfolding recover_stale_jobs process_due_jobs
  try_pass pass table w = elim pass.recovery [
    | raises ↦ (true, table, w)
    | cancels ↦ (false, table, w)
    | returns ↦
        let recovered = recover_stale_jobs pass.recovered_at table in
        elim pass.selection [
          | raises ↦ (true, recovered, w)
          | cancels ↦ (false, recovered, w)
          | returns ↦
              process_due_jobs settings jobs worker_id pass.selected_at pass.turns recovered w
        ]
  ]

  -- The loop; the shutdown event is set at its head once the passes are over.
  unfoldable pub run_passes : List Pass → List Job → W → RunEnd × List Job × W
  unfolding try_pass
  run_passes [] table w = (stopped, table, w)
  run_passes (pass ∷ passes) table w =
      let (goes_on, table', w') = try_pass pass table w in
      elim goes_on [
        | false ↦ (run_cancelled, table', w')
        | true ↦ elim pass.wait [
          | shut_down ↦ (stopped, table', w')
          | interrupted ↦ (run_cancelled, table', w')
          | elapsed ↦ run_passes passes table' w'
        ]
      ]

  -- A pass without the database.
  abbrev pub IsLost : Pass → Type 0
  IsLost pass = (pass.recovery ≡ raises) × (pass.wait ≡ elapsed)

  lost_pass :
      (pass : Pass) (passes : List Pass) (table : List Job) (w : W)
      → IsLost pass
      → run_passes (pass ∷ passes) table w ≡ run_passes passes table w
  unfolding run_passes try_pass
  lost_pass pass passes table w h = rw (h.0, h.1) refl

  -- However long the database is away, the worker goes on as if it had been there all the time.
  pub run_passes-recovers :
      (lost passes : List Pass) (table : List Job) (w : W)
      → All IsLost lost
      → run_passes (lost ++ passes) table w ≡ run_passes passes table w
  run_passes-recovers [] passes table w h = refl
  run_passes-recovers (pass ∷ lost) passes table w h =
      lost_pass pass (lost ++ passes) table w h.0 ∙ run_passes-recovers lost passes table w h.1
