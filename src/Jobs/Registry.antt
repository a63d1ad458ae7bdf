-- ===== src/Jobs/Registry.antt =====
-- The registry of job handlers (app/core/jobs/registry.py): a `dict` from a job's name to its
-- function, where a later registration replaces an earlier one.
use apsis.Prelude.{
  ℕ, Str, str_eq, Dict, lookup, insert, lookup-insert, keys, Outcome, Option, some, List, ◌≡◌,
  if◌then◌else◌,
}

-- A coroutine function without arguments under `asyncio.wait_for`, on a world `W`; it takes the
-- timeout.
abbrev pub JobFunc : Type 0 → Type 0
JobFunc W = ℕ → W → Outcome × W

abbrev pub JobRegistry : Type 0 → Type 0
JobRegistry W = Dict (JobFunc W)

module _ {W : Type 0} where
  unfoldable pub register : Str → JobFunc W → JobRegistry W → JobRegistry W
  register job_name func jobs = insert job_name func jobs

  unfoldable pub get : Str → JobRegistry W → Option (JobFunc W)
  get job_name jobs = lookup job_name jobs

  unfoldable pub registered_jobs : JobRegistry W → List Str
  registered_jobs jobs = keys jobs

  -- After a registration its name gets the new function and every other name what it had.
  pub get-register :
      (n m : Str) (f : JobFunc W) (jobs : JobRegistry W)
      → get m (register n f jobs) ≡ (if str_eq n m then some f else get m jobs)
  unfolding get register
  get-register n m f jobs = lookup-insert n m f jobs
