-- ===== src/Jobs/Worker/Recovery.antt =====
-- What `_recover_stale_jobs` leaves.
use mathlib.Core.Path.{subst}
use apsis.Prelude.{
  ℕ, suc, ◌+◌, ◌<◌, All, Option-cases, ◌∙◌, Instant, true, false, Option, none, some, List, [], ◌∷◌,
  ltb, ltb→lt, ◌⊎◌, inl, inr, Bool-cases, ◌≡◌, refl, ap, arith, if◌then◌else◌,
}
use apsis.Jobs.Model.{JobStatus, pending, running, Job, update_where}
use apsis.Jobs.Worker.{lease_expired, is_stale, release, recover_stale_jobs, recovered_count}

-- A job that no worker keeps: it is running and has no lease, or one that ended before the reading of
-- the clock.
pub data IsZombie (now : Instant) (r : Job) : Type 0 where
  without_lease : r.status ≡ running → r.lease_until ≡ none → IsZombie now r
  beyond_lease :
      (until : Instant)
      → r.status ≡ running
      → r.lease_until ≡ some until
      → until < now
      → IsZombie now r

-- A job that recovery has to leave alone: it is not running, or its lease is not over.
pub data IsKept (now : Instant) (r : Job) : Type 0 where
  not_running : r.status ≡ pending → IsKept now r
  leased : (until : Instant) → r.lease_until ≡ some until → (until < now → ⊥) → IsKept now r

-- The rows before and after, one by one, with the number of those that were freed.
pub data Recovers (now : Instant) : List Job → List Job → ℕ → Type 0 where
  over : Recovers now [] [] 0
  frees :
      {r : Job} {rs rs' : List Job} {n : ℕ}
      → IsZombie now r
      → Recovers now rs rs' n
      → Recovers now
          (r ∷ rs)
          (record r { status = pending; claimed_by = none; lease_until = none } ∷ rs')
          (suc n)
  keeps :
      {r : Job} {rs rs' : List Job} {n : ℕ}
      → IsKept now r
      → Recovers now rs rs' n
      → Recovers now (r ∷ rs) (r ∷ rs') n

Status-cases : (s : JobStatus) → (s ≡ pending) ⊎ (s ≡ running)
Status-cases pending = inl refl
Status-cases running = inr refl

-- What the WHERE clause finds of each row.
spares : (now : Instant) (r : Job) → r.status ≡ pending → is_stale now r ≡ false
unfolding is_stale
spares now r waits = ground arith

finds :
    (now : Instant) (r : Job)
    → r.status ≡ running
    → is_stale now r ≡ lease_expired now r.lease_until
unfolding is_stale
finds now r runs = ground arith

beyond :
    (now : Instant) (o : Option Instant) (until : Instant)
    → o ≡ some until
    → lease_expired now o ≡ ltb until now
unfolding lease_expired
beyond now o until held = ap (lease_expired now) held

without : (now : Instant) (o : Option Instant) → o ≡ none → lease_expired now o ≡ true
unfolding lease_expired
without now o missing = ap (lease_expired now) missing

stale_cases :
    (now : Instant) (r : Job)
    → ((is_stale now r ≡ true) × IsZombie now r) ⊎ ((is_stale now r ≡ false) × IsKept now r)
stale_cases now r = elim (Status-cases r.status) [
  | inl waits ↦ inr (spares now r waits, not_running waits)
  | inr runs ↦ elim (Option-cases r.lease_until) [
    | inl missing ↦
        inl (finds now r runs ∙ without now r.lease_until missing, without_lease runs missing)
    | inr (until, held) ↦
        let found = finds now r runs ∙ beyond now r.lease_until until held in
        elim (Bool-cases (ltb until now)) [
          | inl late ↦ inl (found ∙ late, beyond_lease until runs held (ltb→lt until now late))
          | inr early ↦ inr (found ∙ early, leased until held (λ before. ground arith))
        ]
  ]
]

IsKept-one : (now : Instant) (r : Job) → IsKept now (if is_stale now r then release r else r)
unfolding release
IsKept-one now r = elim (stale_cases now r) [
  | inl (stale, zombie) ↦ rw stale (not_running refl)
  | inr (fine, kept) ↦ rw fine kept
]

recover_one :
    (now : Instant) (r : Job) (rs rs' : List Job) (n : ℕ)
    → Recovers now rs rs' n
    → Recovers now
        (r ∷ rs)
        ((if is_stale now r then release r else r) ∷ rs')
        ((if is_stale now r then 1 else 0) + n)
unfolding release
recover_one now r rs rs' n rest = elim (stale_cases now r) [
  | inl (stale, zombie) ↦ rw stale (subst (Recovers now _ _) (omega arith) (frees zombie rest))
  | inr (fine, kept) ↦ rw fine (subst (Recovers now _ _) (omega arith) (keeps kept rest))
]

-- Recovery frees exactly the rows that run without a lease or beyond it, and changes nothing else of
-- them; every other row, be it pending or within its lease, stays as it was; the count that is
-- logged is the number of those that were freed; and after it no row is left to be freed.
pub recover_stale_jobs_lem :
    (now : Instant) (table : List Job)
    → Recovers now table (recover_stale_jobs now table) (recovered_count now table)
      × All (IsKept now) (recover_stale_jobs now table)
unfolding recover_stale_jobs recovered_count update_where
recover_stale_jobs_lem now [] = (over, tt)
recover_stale_jobs_lem now (r ∷ rs) =
    let (rest, kept) = recover_stale_jobs_lem now rs in
    (
      recover_one now r rs (recover_stale_jobs now rs) (recovered_count now rs) rest,
      (IsKept-one now r, kept),
    )
