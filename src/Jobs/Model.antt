-- ===== src/Jobs/Model.antt =====
-- The rows of `scheduled_jobs` (app/core/jobs/models.py), and the UPDATE and SELECT statements on
-- them.
use apsis.Prelude.{
  ℕ, Str, Instant, Uuid, Bool, true, false, Option, none, some, List, [], ◌∷◌, ◌==◌, ◌≡◌, refl,
  arith, if◌then◌else◌,
}
use mathlib.Core.Option

-- The strings "PENDING" and "RUNNING" of the `status` column.
pub data JobStatus : Type 0 where
  pending running : JobStatus

pub record Job : Type 0 where
  pub id : Uuid
  pub job_name : Str
  pub description : Option Str
  pub interval_seconds : ℕ
  pub status : JobStatus
  pub last_run_at : Option Instant
  pub next_run_at : Instant
  pub last_error : Option Str
  pub run_count : ℕ
  pub claimed_by : Option Str
  pub lease_until : Option Instant
  pub created_at : Instant
  pub updated_at : Option Instant

abbrev pub is_pending : JobStatus → Bool
is_pending pending = true
is_pending running = false

-- The row with a primary key.
unfoldable pub find_row : Uuid → List Job → Option Job
find_row i [] = none
find_row i (r ∷ rs) = if r.id == i then some r else find_row i rs

-- UPDATE ... SET f WHERE p
unfoldable pub update_where : (Job → Bool) → (Job → Job) → List Job → List Job
update_where p f [] = []
update_where p f (r ∷ rs) = (if p r then f r else r) ∷ update_where p f rs

module _ (p : Job → Bool) (f : Job → Job) (keeps_id : (r : Job) → (f r).id ≡ r.id) where
  -- An update that keeps primary keys acts on the row with a key as it acts on that row alone.
  pub find_row-update_where :
      (i : Uuid) (table : List Job)
      → find_row i (update_where p f table)
        ≡ Option.map (λ r. if p r then f r else r) (find_row i table)
  unfolding find_row update_where
  find_row-update_where i [] = refl
  find_row-update_where i (r ∷ rs) = ground (arith, keeps_id r, find_row-update_where i rs)
