-- ===== src/Events/Worker/Select.antt =====
-- Which event a turn of the batch takes.
use apsis.Prelude.{
  ◌≤◌, true, false, Option, none, some, List, [], ◌∷◌, ◌≡◌, refl, arith, All, All-map_of, leb,
  leb→le, ◌⊎◌, inl, inr, Bool-cases,
}
use apsis.Events.Outbox.{OutboxEvent}
use apsis.Events.Worker.{Turn, is_due, earlier, earliest, select_event}

-- Membership by recursion.
abbrev pub In : {A : Type 0} → A → List A → Type 0
In e [] = ⊥
In e (x ∷ xs) = (x ≡ e) ⊎ In e xs

module _ (turn : Turn) where
  -- `e` is a due row of the table, and no due row is scheduled before it.
  pub record IsNext (table : List OutboxEvent) (e : OutboxEvent) : Type 0 where
    pub member : In e table
    pub due : is_due turn e ≡ true
    pub first : All (λ r. is_due turn r ≡ true → e.scheduled_at ≤ r.scheduled_at) table

  -- A turn takes an event exactly if some row is pending, due and unlocked: with none it takes
  -- nothing, and what it takes is such a row with the least schedule.
  abbrev pub Selects : List OutboxEvent → Option OutboxEvent → Type 0
  Selects table none = All (λ r. is_due turn r ≡ false) table
  Selects table (some e) = IsNext table e

  Selects-skip :
      (r : OutboxEvent) (table : List OutboxEvent) (o : Option OutboxEvent)
      → is_due turn r ≡ false
      → Selects table o
      → Selects (r ∷ table) o
  Selects-skip r table none h s = (h, s)
  Selects-skip r table (some e) h s = record {
    member = inr s.member;
    due = s.due;
    first = (λ k. absurd (cc), s.first);
  }

  Selects-take :
      (r : OutboxEvent) (table : List OutboxEvent) (o : Option OutboxEvent)
      → is_due turn r ≡ true
      → Selects table o
      → Selects (r ∷ table) (some (earlier r o))
  unfolding earlier
  Selects-take r table none h s = record {
    member = inl refl;
    due = h;
    first = (
      (λ k. omega arith),
      All-map_of (λ x. is_due turn x ≡ false) _ (λ x f k. absurd (cc)) table s,
    );
  }
  Selects-take r table (some e) h s = elim (Bool-cases (leb r.scheduled_at e.scheduled_at)) [
    | inl sooner ↦ rw sooner (record {
      member = inl refl;
      due = h;
      first = (
        (λ k. omega arith),
        All-map_of (λ x. is_due turn x ≡ true → e.scheduled_at ≤ x.scheduled_at) _
            (λ x f k. omega (arith, leb→le r.scheduled_at e.scheduled_at sooner, f k)) table
            s.first,
      );
    })
    | inr later ↦
        rw later
          (record { member = inr s.member; due = s.due; first = ((λ k. ground arith), s.first) })
  ]

  pub select_event-Selects : (table : List OutboxEvent) → Selects table (select_event turn table)
  unfolding select_event earliest
  select_event-Selects [] = tt
  select_event-Selects (r ∷ table) = elim (Bool-cases (is_due turn r)) [
    | inl due ↦ rw due (Selects-take r table _ due (select_event-Selects table))
    | inr not_due ↦ rw not_due (Selects-skip r table _ not_due (select_event-Selects table))
  ]
