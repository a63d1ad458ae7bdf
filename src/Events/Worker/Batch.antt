-- ===== src/Events/Worker/Batch.antt =====
-- What a batch does to the table.
use mathlib.Core.Path.{subst}
use apsis.Prelude.{
  ℕ, ◌≤◌, ◌==◌, ==_iff, true, false, some, List, [], ◌∷◌, ◌≡◌, ◌≢◌, refl, sym, ◌∙◌, ap, arith, All,
  inl, inr, take, Option-cases,
}
use apsis.Events.Outbox.{OutboxEvent, pending}
use apsis.Events.Dispatcher.{EventDispatcher}
use apsis.Events.Worker.{
  Turn, Readings, is_due, select_event, handle_event, update_row, drained, process_turns,
  process_batch, batch_size,
}
use apsis.Events.Worker.Settle.{IsWellFormed, handle_event-Settles, handle_event-IsWellFormed}
use apsis.Events.Worker.Select.{In, IsNext, select_event-Selects}

-- The primary key.
abbrev pub DistinctIds : List OutboxEvent → Type 0
DistinctIds [] = Unit
DistinctIds (e ∷ es) = All (λ r. r.id ≢ e.id) es × DistinctIds es

-- How a row may change: its identity and retry limit stay, retries only grow, within the limit if
-- they were, and a row that is not pending stays whole.
pub record Advances (r r' : OutboxEvent) : Type 0 where
  pub same_id : r'.id ≡ r.id
  pub retries_grow : r.retry_count ≤ r'.retry_count
  pub stays_WellFormed : IsWellFormed r → IsWellFormed r'
  pub settled_stays : r.status ≢ pending → r' ≡ r

-- The rows of two tables, one by one.
abbrev pub Rows : List OutboxEvent → List OutboxEvent → Type 0
Rows [] [] = Unit
Rows [] (r' ∷ rs') = ⊥
Rows (r ∷ rs) [] = ⊥
Rows (r ∷ rs) (r' ∷ rs') = Advances r r' × Rows rs rs'

Advances-refl : (r : OutboxEvent) → Advances r r
Advances-refl r = record {
  same_id = refl;
  retries_grow = omega arith;
  stays_WellFormed = λ h. h;
  settled_stays = λ h. refl;
}

Advances-trans : {r s t : OutboxEvent} → Advances r s → Advances s t → Advances r t
Advances-trans {r} {s} {t} a b = record {
  same_id = b.same_id ∙ a.same_id;
  retries_grow = omega (arith, a.retries_grow, b.retries_grow);
  stays_WellFormed = λ h. b.stays_WellFormed (a.stays_WellFormed h);
  settled_stays = λ h.
      let e = a.settled_stays h in b.settled_stays (λ p. h (ap (λ x. x.status) (sym e) ∙ p)) ∙ e;
}

Rows-refl : (table : List OutboxEvent) → Rows table table
Rows-refl [] = tt
Rows-refl (r ∷ rs) = (Advances-refl r, Rows-refl rs)

Rows-trans : (a b c : List OutboxEvent) → Rows a b → Rows b c → Rows a c
Rows-trans [] [] [] h k = tt
Rows-trans [] [] (z ∷ c) h k = absurd k
Rows-trans [] (y ∷ b) c h k = absurd h
Rows-trans (x ∷ a) [] c h k = absurd h
Rows-trans (x ∷ a) (y ∷ b) [] h k = absurd k
Rows-trans (x ∷ a) (y ∷ b) (z ∷ c) h k = (Advances-trans h.0 k.0, Rows-trans a b c h.1 k.1)

All-id_ne :
    (table table' : List OutboxEvent) (i : ℕ)
    → Rows table table'
    → All (λ r. r.id ≢ i) table
    → All (λ r. r.id ≢ i) table'
All-id_ne [] [] i h d = tt
All-id_ne [] (r ∷ rs) i h d = absurd h
All-id_ne (r ∷ rs) [] i h d = absurd h
All-id_ne (r ∷ rs) (r' ∷ rs') i h d = ((λ e. d.0 (sym h.0.same_id ∙ e)), All-id_ne rs rs' i h.1 d.1)

Rows-DistinctIds :
    (table table' : List OutboxEvent) → Rows table table' → DistinctIds table → DistinctIds table'
Rows-DistinctIds [] [] h d = tt
Rows-DistinctIds [] (r ∷ rs) h d = absurd h
Rows-DistinctIds (r ∷ rs) [] h d = absurd h
Rows-DistinctIds (r ∷ rs) (r' ∷ rs') h d = (
  subst (λ i. All (λ x. x.id ≢ i) rs') (sym h.0.same_id) (All-id_ne rs rs' r.id h.1 d.0),
  Rows-DistinctIds rs rs' h.1 d.1,
)

All-In :
    (P : OutboxEvent → Type 0) (e : OutboxEvent) (table : List OutboxEvent)
    → All P table
    → In e table
    → P e
All-In P e [] h i = absurd i
All-In P e (r ∷ rs) h (inl here) = subst P here h.0
All-In P e (r ∷ rs) h (inr there) = All-In P e rs h.1 there

update_absent :
    (e : OutboxEvent) (table : List OutboxEvent)
    → All (λ r. r.id ≢ e.id) table
    → update_row e table ≡ table
unfolding update_row
update_absent e [] h = refl
update_absent e (r ∷ rs) h = ground (arith, h.0, update_absent e rs h.1)

-- An update of a row of the table advances that row alone.
update_row-Rows :
    (e e' : OutboxEvent) (table : List OutboxEvent)
    → DistinctIds table
    → In e table
    → Advances e e'
    → Rows table (update_row e' table)
unfolding update_row
update_row-Rows e e' [] d i a = absurd i
update_row-Rows e e' (r ∷ rs) d (inl here) a =
    let q : r.id ≡ e'.id = ap (λ x. x.id) here ∙ sym a.same_id in
    let rest : update_row e' rs ≡ rs =
      update_absent e' rs (subst (λ i. All (λ x. x.id ≢ i) rs) q d.0) in
    rw ((==_iff r.id e'.id).1 q, rest) (subst (λ x. Advances x e') (sym here) a, Rows-refl rs)
update_row-Rows e e' (r ∷ rs) d (inr there) a =
    let apart : e.id ≢ r.id = All-In (λ x. x.id ≢ r.id) e rs d.0 there in
    let other : (r.id == e'.id) ≡ false = ground (arith, a.same_id) in
    rw other (Advances-refl r, update_row-Rows e e' rs d.1 there a)

due_pending : (turn : Turn) (e : OutboxEvent) → is_due turn e ≡ true → e.status ≡ pending
unfolding is_due
due_pending turn e h = ground arith

module _ {W : Type 0} (d : EventDispatcher W) (timeout : ℕ) where
  handle_event-Advances :
      (t : Readings) (e : OutboxEvent) (w : W) {e' : OutboxEvent}
      → e.status ≡ pending
      → (handle_event d timeout t e w).0 ≡ some e'
      → Advances e e'
  handle_event-Advances t e w {e'} p got =
      let (results, ran, settles) = handle_event-Settles d timeout t e w {e' = e'} p got in
      record {
        same_id = settles.same_event.0;
        retries_grow = omega (arith, settles.counted);
        stays_WellFormed = handle_event-IsWellFormed d timeout t e w p got;
        settled_stays = λ h. absurd (h p);
      }

  -- One turn that takes `e` and commits `e'`.
  turn-Rows :
      (turn : Turn) (table : List OutboxEvent) (w : W) (e e' : OutboxEvent)
      → DistinctIds table
      → select_event turn table ≡ some e
      → (handle_event d timeout turn.readings e w).0 ≡ some e'
      → Rows table (update_row e' table)
  turn-Rows turn table w e e' ids taken got =
      let next : IsNext turn table e = rw taken at (select_event-Selects turn table) in
      update_row-Rows e e' table ids next.member
        (handle_event-Advances turn.readings e w (due_pending turn e next.due) got)

  process_turns-Rows :
      (turns : List Turn) (table : List OutboxEvent) (w : W)
      → DistinctIds table
      → Rows table (process_turns d timeout turns table w).1
  unfolding process_turns
  process_turns-Rows [] table w ids = Rows-refl table
  process_turns-Rows (turn ∷ turns) table w ids = elim (Option-cases (select_event turn table)) [
    | inl nothing ↦ rw (nothing, process_turns) (Rows-refl table)
    | inr (e, taken) ↦ elim (Option-cases (handle_event d timeout turn.readings e w).0) [
      | inl gone ↦ rw (taken, process_turns) (rw gone (Rows-refl table))
      | inr (e', got) ↦
          let step = turn-Rows turn table w e e' ids taken got in
          rw (taken, process_turns)
            (rw got (
              Rows-trans table (update_row e' table) _ step (
                process_turns-Rows turns (update_row e' table) _
                  (Rows-DistinctIds table (update_row e' table) step ids))))
    ]
  ]

  -- Whatever the handlers do, a batch over a table with distinct ids changes rows only in place and
  -- one by one: it adds and drops no row, keeps ids, lets no retry count fall, keeps well-formed rows
  -- well formed, and leaves every row that was not pending as it was.
  pub process_batch-Rows :
      (turns : List Turn) (table : List OutboxEvent) (w : W)
      → DistinctIds table
      → Rows table (process_batch d timeout turns table w).1
  unfolding process_batch
  process_batch-Rows turns table w ids = process_turns-Rows (take batch_size turns) table w ids

  process_turns_drained :
      (turns : List Turn) (table : List OutboxEvent) (w : W) (last : Turn)
      → (process_turns d timeout turns table w).0 ≡ drained last
      → All (λ r. is_due last r ≡ false) (process_turns d timeout turns table w).1
  unfolding process_turns
  process_turns_drained [] table w last h = absurd (cc)
  process_turns_drained (turn ∷ turns) table w last h =
      elim (Option-cases (select_event turn table)) [
        | inl nothing ↦
            let none_due : All (λ r. is_due turn r ≡ false) table =
              rw nothing at (select_event-Selects turn table) in
            let ended : drained turn ≡ drained last = rw (nothing, process_turns) at h in
            rw (nothing, process_turns)
              (subst (λ u. All (λ r. is_due u r ≡ false) table) (cc ended) none_due)
        | inr (e, taken) ↦ elim (Option-cases (handle_event d timeout turn.readings e w).0) [
          | inl gone ↦ absurd (ground arith)
          | inr (e', got) ↦
              rw (taken, process_turns)
                (rw got (
                  process_turns_drained turns (update_row e' table) _ last
                    (rw got at (rw (taken, process_turns) at h))))
        ]
      ]

  -- A batch that returns early, at its turn `last`, leaves no row that is pending, due by that turn's
  -- clock and unlocked.
  pub process_batch_drains :
      (turns : List Turn) (table : List OutboxEvent) (w : W) (last : Turn)
      → (process_batch d timeout turns table w).0 ≡ drained last
      → All (λ r. is_due last r ≡ false) (process_batch d timeout turns table w).1
  unfolding process_batch
  process_batch_drains turns table w last h =
      process_turns_drained (take batch_size turns) table w last h
