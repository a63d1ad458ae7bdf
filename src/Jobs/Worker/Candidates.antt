-- ===== src/Jobs/Worker/Candidates.antt =====
-- Which jobs `_process_due_jobs` takes, and in which order.
use mathlib.Core.List.{Perm}
use mathlib.Core.List.Perm
use apsis.Prelude.{
  ℕ, suc, zero, ◌≤◌, Instant, List, [], ◌∷◌, ◌++◌, ◌≡◌, refl, arith, All, map, take, drop, keep,
  length, leb, leb→le, Bool-cases, inl, inr,
}
use apsis.Jobs.Model.{Job}
use apsis.Jobs.Worker.{is_due, insert_by_next_run, order_by_next_run, candidate_ids, batch_size}

abbrev pub IsOrdered : List Job → Type 0
IsOrdered [] = Unit
IsOrdered (j ∷ js) = All (λ k. j.next_run_at ≤ k.next_run_at) js × IsOrdered js

insert-All :
    (P : Job → Type 0) (j : Job) (js : List Job) → P j → All P js → All P (insert_by_next_run j js)
unfolding insert_by_next_run
insert-All P j [] p h = (p, tt)
insert-All P j (k ∷ ks) p h = elim (Bool-cases (leb j.next_run_at k.next_run_at)) [
  | inl sooner ↦ rw sooner (p, h)
  | inr later ↦ rw later (h.0, insert-All P j ks p h.1)
]

All-later :
    (j k : Job) (ks : List Job)
    → j.next_run_at ≤ k.next_run_at
    → All (λ x. k.next_run_at ≤ x.next_run_at) ks
    → All (λ x. j.next_run_at ≤ x.next_run_at) ks
All-later j k [] h all = tt
All-later j k (x ∷ xs) h all = (omega (arith, all.0), All-later j k xs h all.1)

insert-IsOrdered : (j : Job) (js : List Job) → IsOrdered js → IsOrdered (insert_by_next_run j js)
unfolding insert_by_next_run
insert-IsOrdered j [] h = (tt, tt)
insert-IsOrdered j (k ∷ ks) h = elim (Bool-cases (leb j.next_run_at k.next_run_at)) [
  | inl sooner ↦
      let le : j.next_run_at ≤ k.next_run_at = leb→le _ _ sooner in
      rw sooner ((le, All-later j k ks le h.0), h)
  | inr later ↦ rw later (
    insert-All (λ x. k.next_run_at ≤ x.next_run_at) j ks (ground arith) h.0,
    insert-IsOrdered j ks h.1,
  )
]

insert-perm : (j : Job) (js : List Job) → Perm (insert_by_next_run j js) (j ∷ js)
unfolding insert_by_next_run
insert-perm j [] = Perm.refl _
insert-perm j (k ∷ ks) = elim (Bool-cases (leb j.next_run_at k.next_run_at)) [
  | inl sooner ↦ rw sooner (Perm.refl _)
  | inr later ↦ rw later (Perm.trans (Perm.cons k (insert-perm j ks)) (Perm.swap j k ks))
]

order-IsOrdered : (js : List Job) → IsOrdered (order_by_next_run js)
unfolding order_by_next_run
order-IsOrdered [] = tt
order-IsOrdered (j ∷ js) = insert-IsOrdered j (order_by_next_run js) (order-IsOrdered js)

order-perm : (js : List Job) → Perm (order_by_next_run js) js
unfolding order_by_next_run
order-perm [] = Perm.refl _
order-perm (j ∷ js) =
    Perm.trans (insert-perm j (order_by_next_run js)) (Perm.cons j (order-perm js))

length-take-le : (n : ℕ) (js : List Job) → length (take n js) ≤ n
length-take-le zero js = omega arith
length-take-le (suc n) [] = omega arith
length-take-le (suc n) (j ∷ js) = omega (arith, length-take-le n js)

take-append-drop : (n : ℕ) (js : List Job) → take n js ++ drop n js ≡ js
take-append-drop zero js = refl
take-append-drop (suc n) [] = refl
take-append-drop (suc n) (j ∷ js) = rw (take-append-drop n js)

-- The candidates are the ids of a batch of at most ten jobs; the batch and the jobs left over are,
-- together, the due jobs of the table, ordered by their next run, so no job left over is due before
-- one of the batch.
pub candidate_ids_lem :
    (now : Instant) (table : List Job)
    → (batch : List Job) × (left : List Job) × (candidate_ids now table ≡ map (λ j. j.id) batch)
      × (length batch ≤ batch_size)
      × IsOrdered (batch ++ left)
      × Perm (batch ++ left) (keep (is_due now) table)
unfolding candidate_ids
candidate_ids_lem now table =
    let due = order_by_next_run (keep (is_due now) table) in
    let whole = take-append-drop batch_size due in
    (
      take batch_size due,
      drop batch_size due,
      refl,
      length-take-le batch_size due,
      rw whole (order-IsOrdered (keep (is_due now) table)),
      rw whole (order-perm (keep (is_due now) table)),
    )
