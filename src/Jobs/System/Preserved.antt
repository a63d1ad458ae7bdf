-- ===== src/Jobs/System/Preserved.antt =====
-- Every step keeps the invariant, so every reachable state has it.
use mathlib.Core.Path.{subst}
use apsis.Prelude.{
  ℕ, ◌+◌, ◌*◌, ◌≤◌, second, Instant, Uuid, Str, true, List, ◌==◌, ==_iff, ◌≡◌, ◌≢◌, sym, ap, arith,
  Bool-cases, ◌⊎◌, inl, inr,
}
use apsis.Jobs.Model.{Job}
use apsis.Jobs.Worker.{JobSettings}
use apsis.Jobs.System.{
  Phase, idle, busy, System, update, OnTime, Step, claims, reschedules, recovers, crashes, passes,
  Reach, here, next, validate_lease_invariant,
}
use apsis.Jobs.System.Exclusion.{
  Inv, Inv-exclusive, Leased-claim, Leased-claimed, Leased-recover, Leased-reschedule,
}

-- Who is busy after an update of one worker.
update-busy :
    (f : ℕ → Phase) (i j : ℕ) (p : Phase) (k : Uuid) (since : Instant) (n : ℕ)
    → update f i p j ≡ busy k since n
    → (j ≡ i) × (p ≡ busy k since n) ⊎ (j ≢ i) × (f j ≡ busy k since n)
update-busy f i j p k since n h = elim (Bool-cases (j == i)) [
  | inl same ↦ inl ((==_iff j i).0 same, rw same at h)
  | inr other ↦ inr ((λ e. ground arith), rw other at h)
]

abbrev key_of : Phase → Uuid
key_of idle = 0
key_of (busy k since n) = k

abbrev since_of : Phase → Instant
since_of idle = 0
since_of (busy k since n) = since

update-OnTime :
    (settings : JobSettings) (slack : ℕ) (now : Instant) (f : ℕ → Phase) (i : ℕ) (p : Phase)
    → OnTime settings slack now p
    → ((j : ℕ) → OnTime settings slack now (f j))
    → (j : ℕ) → OnTime settings slack now (update f i p j)
update-OnTime settings slack now f i p hp hf j = elim (Bool-cases (j == i)) [
  | inl same ↦ rw same hp
  | inr other ↦ rw other (hf j)
]

module _ (settings : JobSettings) (slack : ℕ) (worker_id : ℕ → Str)
    (distinct : (i j : ℕ) → worker_id i ≡ worker_id j → i ≡ j)
    (covered : settings.handler_timeout_seconds + slack ≤ settings.lease_seconds) where
  abbrev Invariant : System → Type 0
  Invariant = Inv settings slack worker_id

  lease_live :
      (now : Instant) (since : Instant)
      → now ≤ since + (settings.handler_timeout_seconds + slack) * second
      → now ≤ since + settings.lease_seconds * second
  lease_live now since h = omega (arith, covered)

  Step-Inv : {s s' : System} → Step settings slack worker_id s s' → Invariant s → Invariant s'
  Step-Inv {s} (claims i job_id job_name n s' free got e) inv = subst Invariant (sym e) (record {
    leased = λ j k since m h. elim (update-busy s.phase i j (busy job_id s.now n) k since m h) [
      | inl (same, eq) ↦
          rw (same, sym (ap key_of eq), sym (ap since_of eq))
            (Leased-claimed settings slack worker_id i job_id s.now s.table {x = (job_name, n)} got)
      | inr (other, there) ↦
          Leased-claim settings slack worker_id (worker_id i) job_id s.now s.now s.table j k since
            (inv.leased j k since m there)
    ];
    on_time =
        update-OnTime settings slack s.now s.phase i (busy job_id s.now n) (omega arith)
          inv.on_time;
  })
  Step-Inv {s} (reschedules i job_id since0 n error s' at e) inv = subst Invariant (sym e) (record {
    leased = λ j k since m h. elim (update-busy s.phase i j idle k since m h) [
      | inl (same, eq) ↦ absurd (cc eq)
      | inr (other, there) ↦
          Leased-reschedule settings slack worker_id job_id s.now n error s.table j k since
            (λ q. other (
              Inv-exclusive settings slack worker_id s distinct inv j i job_id since since0 m n
                (subst (λ x. s.phase j ≡ busy x since m) q there) at))
            (inv.leased j k since m there)
    ];
    on_time = update-OnTime settings slack s.now s.phase i idle tt inv.on_time;
  })
  Step-Inv {s} (recovers s' e) inv = subst Invariant (sym e) (record {
    leased = λ j k since m h.
        Leased-recover settings slack worker_id s.now s.table j k since
          (lease_live s.now since (subst (OnTime settings slack s.now) h (inv.on_time j)))
          (inv.leased j k since m h);
    on_time = inv.on_time;
  })
  Step-Inv {s} (crashes i s' e) inv = subst Invariant (sym e) (record {
    leased = λ j k since m h. elim (update-busy s.phase i j idle k since m h) [
      | inl (same, eq) ↦ absurd (cc eq)
      | inr (other, there) ↦ inv.leased j k since m there
    ];
    on_time = update-OnTime settings slack s.now s.phase i idle tt inv.on_time;
  })
  Step-Inv {s} (passes later s' le on_time e) inv =
      subst Invariant (sym e) (record { leased = inv.leased; on_time = on_time })

  Reach-Inv : {s s' : System} → Invariant s → Reach settings slack worker_id s s' → Invariant s'
  Reach-Inv inv here = inv
  Reach-Inv inv (next r step) = Step-Inv step (Reach-Inv inv r)

  -- The state in which every worker is idle has the invariant, whatever the table holds.
  idle-Inv :
      (table : List Job) (now : Instant)
      → Invariant (record { now = now; table = table; phase = λ i. idle })
  idle-Inv table now = record { leased = λ i k since m h. absurd (cc h); on_time = λ i. tt }

-- The lease that the settings accept covers the handler timeout and as much again for the worker's
-- own statements.
validate-covers :
    (settings : JobSettings) (slack : ℕ)
    → validate_lease_invariant settings ≡ true
    → slack ≤ settings.handler_timeout_seconds
    → settings.handler_timeout_seconds + slack ≤ settings.lease_seconds
unfolding validate_lease_invariant
validate-covers settings slack ok small = ground arith

-- From a state in which every worker is idle, whatever the table holds, no interleaving of claims,
-- reschedules, recoveries, crashes and passing time lets two workers be busy with one job at once, if
-- the settings pass the check at startup, the workers' names differ, and a busy worker is through
-- within its handler timeout and `slack` seconds, where `slack` is at most that timeout.
pub no_double_run :
    (settings : JobSettings) (slack : ℕ) (worker_id : ℕ → Str)
    → ((i j : ℕ) → worker_id i ≡ worker_id j → i ≡ j)
    → validate_lease_invariant settings ≡ true
    → slack ≤ settings.handler_timeout_seconds
    → (table : List Job) (now : Instant) {s : System}
    → Reach settings slack worker_id (record { now = now; table = table; phase = λ i. idle }) s
    → (i j : ℕ) (job_id : Uuid) (since since' : Instant) (n n' : ℕ)
    → s.phase i ≡ busy job_id since n
    → s.phase j ≡ busy job_id since' n'
    → i ≡ j
no_double_run settings slack worker_id distinct valid small table now {s} reach =
    let covered = validate-covers settings slack valid small in
    Inv-exclusive settings slack worker_id s distinct (
      Reach-Inv settings slack worker_id distinct covered
        (idle-Inv settings slack worker_id distinct covered table now) reach)
