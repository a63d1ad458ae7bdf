-- ===== src/Tracking/Ingest/Refreshed.antt =====
-- A whole refresh: what it stores, what it publishes, and what a second one does.
use mathlib.Core.List.{append_assoc, append-nil}
use mathlib.Core.Path.{subst}
use apsis.Prelude.{
  ℕ, ◌+◌, ℤ, int_eq, int_eq_iff, Str, Instant, Bool, Option, some, List, [], ◌∷◌, ◌++◌, All,
  All-map_of, length, if◌then◌else◌, Bool-cases, inl, inr, ◌≡◌, ◌≢◌, refl, sym, ◌∙◌, ap, arith,
}
use apsis.Events.Outbox.{OutboxEvent}
use apsis.Celestrak.Types.{TleRecord, ok}
use apsis.Tracking.Models.{Satellite, Database, Server, Attempt, done, Attempt-cases}
use apsis.Tracking.Repos.{get_by_norad_id}
use apsis.Tracking.Ingest.{tle_norad_id, required, upsert, ingest_record, ingest_records, ingest}
use apsis.Tracking.Ingest.Rows.{IsRefreshed, done_inj}
use apsis.Tracking.Ingest.Steps.{HasKeys, IsStored, IsStep, ingest_record-IsStep}

-- No two records carry one catalog number.
abbrev pub HaveOwnNumbers : List TleRecord → Type 0
HaveOwnNumbers [] = Unit
HaveOwnNumbers (r ∷ rs) =
    All (λ (q : TleRecord). tle_norad_id q.line1 ≢ tle_norad_id r.line1) rs × HaveOwnNumbers rs

-- The table holds the lines of every record under its number.
abbrev pub AreStored : List TleRecord → List Satellite → Type 0
AreStored rs rows =
    All (λ (r : TleRecord). (n : ℤ) × (tle_norad_id r.line1 ≡ some n) × IsStored n r rows) rs

-- Each event tells of a satellite of the table.
abbrev pub AreRefreshed : List OutboxEvent → List Satellite → Type 0
AreRefreshed events rows =
    All
      (λ (event : OutboxEvent).
        (n : ℤ) × (s : Satellite) × (get_by_norad_id n rows ≡ some s) × IsRefreshed n s.id event)
      events

module _ {Float Wkb : Type 0} (server : Server) (max_retries : ℕ)
    (tle_epoch : Str → Str → Option Instant) where
  abbrev pub run : List TleRecord → ℕ → Database Float Wkb → Attempt (ℕ × Database Float Wkb)
  run = ingest_records server max_retries tle_epoch

  abbrev pub turn : TleRecord → Database Float Wkb → Attempt (Bool × Database Float Wkb)
  turn = ingest_record server max_retries tle_epoch

  -- A run that returns, by its first turn and the rest.
  pub record First (r : TleRecord) (rs : List TleRecord) (k : ℕ) (db : Database Float Wkb)
      (result : ℕ × Database Float Wkb) : Type 0 where
    pub changed : Bool
    pub db1 : Database Float Wkb
    pub number : ℤ
    pub numbered : tle_norad_id r.line1 ≡ some number
    pub step : IsStep number r db changed db1
    pub rest : run rs (if changed then k + 1 else k) db1 ≡ done result

  pub first :
      (r : TleRecord) (rs : List TleRecord) (k : ℕ) (db : Database Float Wkb)
      (result : ℕ × Database Float Wkb)
      → HasKeys db
      → run (r ∷ rs) k db ≡ done result
      → First r rs k db result
  unfolding ingest_records
  first r rs k db result keyed h = elim (Attempt-cases (turn r db)) [
    | inl (f, failed) ↦ absurd (cc (rw (failed, ingest_records) at h))
    | inr ((changed, db1), went) ↦
        let (n, numbered, step) =
          ingest_record-IsStep server max_retries tle_epoch r db keyed went in
        record {
          changed = changed;
          db1 = db1;
          number = n;
          numbered = numbered;
          step = step;
          rest = rw (went, ingest_records) at h;
        }
  ]

  -- Satellites whose numbers no record carries stay as they are.
  run_others :
      (rs : List TleRecord) (k : ℕ) (db : Database Float Wkb) (result : ℕ × Database Float Wkb)
      (m : ℤ)
      → HasKeys db
      → run rs k db ≡ done result
      → All (λ (r : TleRecord). tle_norad_id r.line1 ≢ some m) rs
      → get_by_norad_id m result.1.satellites ≡ get_by_norad_id m db.satellites
  unfolding ingest_records
  run_others [] k db result m keyed h apart =
      ap (λ (x : ℕ × Database Float Wkb). get_by_norad_id m x.1.satellites) (sym (done_inj h))
  run_others (r ∷ rs) k db result m keyed h apart =
      let f = first r rs k db result keyed h in
      let differs : m ≢ f.number = λ same. apart.0 (f.numbered ∙ ap some (sym same)) in
      run_others rs _ f.db1 result m f.step.keyed f.rest apart.1 ∙ f.step.others m differs

  run_keyed :
      (rs : List TleRecord) (k : ℕ) (db : Database Float Wkb) (result : ℕ × Database Float Wkb)
      → HasKeys db
      → run rs k db ≡ done result
      → HasKeys result.1
  unfolding ingest_records
  run_keyed [] k db result keyed h = rw (sym (done_inj h)) keyed
  run_keyed (r ∷ rs) k db result keyed h =
      let f = first r rs k db result keyed h in run_keyed rs _ f.db1 result f.step.keyed f.rest

  run_stored :
      (rs : List TleRecord) (k : ℕ) (db : Database Float Wkb) (result : ℕ × Database Float Wkb)
      → HasKeys db
      → HaveOwnNumbers rs
      → run rs k db ≡ done result
      → AreStored rs result.1.satellites
  run_stored [] k db result keyed own h = tt
  run_stored (r ∷ rs) k db result keyed own h =
      let f = first r rs k db result keyed h in
      let apart : All (λ (q : TleRecord). tle_norad_id q.line1 ≢ some f.number) rs =
        All-map_of (λ (q : TleRecord). tle_norad_id q.line1 ≢ tle_norad_id r.line1)
          (λ (q : TleRecord). tle_norad_id q.line1 ≢ some f.number)
          (λ q differs same. differs (same ∙ sym f.numbered)) rs own.0 in
      (
        (
          f.number,
          f.numbered,
          record {
            satellite = f.step.stored.satellite;
            found =
                run_others rs _ f.db1 result f.number f.step.keyed f.rest apart
                ∙ f.step.stored.found;
            same = f.step.stored.same;
          },
        ),
        run_stored rs _ f.db1 result f.step.keyed own.1 f.rest,
      )

  -- A run over records that are stored does nothing.
  run_settled :
      (rs : List TleRecord) (k : ℕ) (db : Database Float Wkb)
      → AreStored rs db.satellites
      → run rs k db ≡ done (k, db)
  unfolding ingest_records ingest_record required upsert
  run_settled [] k db stored = refl
  run_settled (r ∷ rs) k db stored =
      let (n, numbered, here) = stored.0 in
      rw (numbered, here.found, here.same) (run_settled rs k db stored.1)

  -- A satellite keeps its id.
  run_ids :
      (rs : List TleRecord) (k : ℕ) (db : Database Float Wkb) (result : ℕ × Database Float Wkb)
      (m : ℤ) (s : Satellite)
      → HasKeys db
      → run rs k db ≡ done result
      → get_by_norad_id m db.satellites ≡ some s
      → (s' : Satellite) × (get_by_norad_id m result.1.satellites ≡ some s') × (s'.id ≡ s.id)
  unfolding ingest_records
  run_ids [] k db result m s keyed h found = (s, rw (sym (done_inj h)) found, refl)
  run_ids (r ∷ rs) k db result m s keyed h found =
      let f = first r rs k db result keyed h in
      elim (Bool-cases (int_eq m f.number)) [
        | inl same ↦
            let is_number : m ≡ f.number = (int_eq_iff m f.number).0 same in
            let kept =
              f.step.keeps_id s
                (sym (ap (λ n. get_by_norad_id n db.satellites) is_number) ∙ found) in
            let (s', found', same_id) =
              run_ids rs _ f.db1 result m f.step.stored.satellite f.step.keyed f.rest
                (ap (λ n. get_by_norad_id n f.db1.satellites) is_number ∙ f.step.stored.found) in
            (s', found', same_id ∙ kept)
        | inr apart ↦
            let differs : m ≢ f.number =
              λ same. absurd (cc (apart, (int_eq_iff m f.number).1 same)) in
            run_ids rs _ f.db1 result m s f.step.keyed f.rest (f.step.others m differs ∙ found)
      ]

  run_events :
      (rs : List TleRecord) (k : ℕ) (db : Database Float Wkb) (result : ℕ × Database Float Wkb)
      → HasKeys db
      → run rs k db ≡ done result
      → (events : List OutboxEvent) × (result.1.outbox_events ≡ db.outbox_events ++ events)
        × (k + length events ≡ result.0)
        × AreRefreshed events result.1.satellites
  unfolding ingest_records
  run_events [] k db result keyed h =
      let same = done_inj h in
      (
        [],
        rw append-nil (ap (λ (x : ℕ × Database Float Wkb). x.1.outbox_events) (sym same)),
        omega (arith, ap (λ (x : ℕ × Database Float Wkb). x.0) same),
        tt,
      )
  run_events (r ∷ rs) k db result keyed h =
      let f = first r rs k db result keyed h in
      let (events, grown, counted, all_told) = run_events rs _ f.db1 result f.step.keyed f.rest in
      elim f.step.events [
        | inl (unchanged, same) ↦ (
          events,
          grown ∙ ap (λ (d : Database Float Wkb). d.outbox_events ++ events) same,
          subst (λ b. (if b then k + 1 else k) + length events ≡ result.0) unchanged counted,
          all_told,
        )
        | inr (changed, event, published, told) ↦
            let (s', found', same_id) =
              run_ids rs _ f.db1 result f.number f.step.stored.satellite f.step.keyed f.rest
                f.step.stored.found in
            let counted' : k + 1 + length events ≡ result.0 =
              subst (λ b. (if b then k + 1 else k) + length events ≡ result.0) changed counted in
            (
              event ∷ events,
              grown
                  ∙ ap (λ es. es ++ events) published
                  ∙ append_assoc db.outbox_events (event ∷ []) events,
              omega arith,
              (
                (
                  f.number,
                  s',
                  found',
                  subst (λ i. IsRefreshed f.number i event) (sym same_id) told,
                ),
                all_told,
              ),
            )
      ]

-- A refresh that returns, of records with a catalog number each of its own, in a table whose
-- primary keys differ, leaves the lines of every record stored under its number and every
-- satellite with another number as it was; a second refresh with the same records reports no
-- change and leaves all tables as they are.
pub ingest-again :
    {Float Wkb : Type 0} (server : Server) (max_retries : ℕ)
    (tle_epoch : Str → Str → Option Instant) (rs : List TleRecord) (db : Database Float Wkb) (n : ℕ)
    (db' : Database Float Wkb)
    → HasKeys db
    → HaveOwnNumbers rs
    → ingest server max_retries tle_epoch (ok rs) db ≡ done (n, db')
    → AreStored rs db'.satellites
      × ((m : ℤ)
          → All (λ (r : TleRecord). tle_norad_id r.line1 ≢ some m) rs
          → get_by_norad_id m db'.satellites ≡ get_by_norad_id m db.satellites)
      × (ingest server max_retries tle_epoch (ok rs) db' ≡ done (0, db'))
unfolding ingest
ingest-again server max_retries tle_epoch rs db n db' keyed own h =
    let stored = run_stored server max_retries tle_epoch rs 0 db (n, db') keyed own h in
    (
      stored,
      λ m. run_others server max_retries tle_epoch rs 0 db (n, db') m keyed h,
      run_settled server max_retries tle_epoch rs 0 db' stored,
    )

-- A refresh that returns, in a table whose primary keys differ, appends to the outbox one pending
-- event for each change that it reports and leaves the events before them as they were; each
-- new event names a satellite of the table by its id and its catalog number.
pub ingest-publishes :
    {Float Wkb : Type 0} (server : Server) (max_retries : ℕ)
    (tle_epoch : Str → Str → Option Instant) (rs : List TleRecord) (db : Database Float Wkb) (n : ℕ)
    (db' : Database Float Wkb)
    → HasKeys db
    → ingest server max_retries tle_epoch (ok rs) db ≡ done (n, db')
    → (events : List OutboxEvent) × (db'.outbox_events ≡ db.outbox_events ++ events)
      × (length events ≡ n)
      × AreRefreshed events db'.satellites
unfolding ingest
ingest-publishes server max_retries tle_epoch rs db n db' keyed h =
    let (events, grown, counted, all_told) =
      run_events server max_retries tle_epoch rs 0 db (n, db') keyed h in
    (events, grown, omega arith, all_told)
