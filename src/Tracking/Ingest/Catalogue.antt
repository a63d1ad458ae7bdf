-- ===== src/Tracking/Ingest/Catalogue.antt =====
-- The refresh against an abstract catalogue: which lines are known of each number, and which numbers
-- are announced, without rows, keys, epochs or clocks.
use mathlib.Core.Option
use mathlib.Core.Path.{fun_ext, subst}
use mathlib.Core.List.{append_assoc, append-nil, map-append}
use apsis.Prelude.{
  ℕ, ◌+◌, ℤ, int_eq, int_eq_iff, Str, codes, str_eq, str_eq_iff, Instant, Bool, true, false, not,
  ◌||◌, Option, none, some, List, [], ◌∷◌, ◌++◌, map, length, length-append, lookup, if◌then◌else◌,
  Bool-cases, Option-cases, inl, inr, ◌≡◌, ◌≢◌, refl, sym, ◌∙◌, ap, arith,
}
use apsis.Events.Outbox.{OutboxEvent, Json, number}
use apsis.Celestrak.Types.{TleRecord, ok}
use apsis.Tracking.Models.{Satellite, Database, Server, done}
use apsis.Tracking.Repos.{get_by_norad_id}
use apsis.Tracking.Ingest.{tle_norad_id, lines_differ, ingest_records, ingest}
use apsis.Tracking.Ingest.Rows.{IsRefreshed, done_inj}
use apsis.Tracking.Ingest.Steps.{HasKeys, IsStep}
use apsis.Tracking.Ingest.Refreshed.{first, run}

-- The lines that are known of each catalog number.
abbrev pub Catalogue : Type 0
Catalogue = ℤ → Option (Str × Str)

abbrev pub learn : ℤ → TleRecord → Catalogue → Catalogue
learn n r known m = if int_eq m n then some (r.line1, r.line2) else known m

-- Are the lines of a record others than the ones that are known?
abbrev pub is_news : TleRecord → Option (Str × Str) → Bool
is_news r none = true
is_news r (some (line1, line2)) = not (str_eq line1 r.line1) || not (str_eq line2 r.line2)

-- One record: the catalogue after it, and the number if it is announced.
abbrev pub take_in_as : TleRecord → Option ℤ → Catalogue → Catalogue × List ℤ
take_in_as r none known = (known, [])
take_in_as r (some n) known = if is_news r (known n) then (learn n r known, n ∷ []) else (known, [])

unfoldable pub take_in : List TleRecord → Catalogue → Catalogue × List ℤ
take_in [] known = (known, [])
take_in (r ∷ rs) known =
    let (known1, announced) = take_in_as r (tle_norad_id r.line1) known in
    let (known2, others) = take_in rs known1 in (known2, announced ++ others)

-- What the table of satellites shows of the catalogue.
abbrev pub catalogue_of : List Satellite → Catalogue
catalogue_of rows n =
    Option.map (λ (s : Satellite). (s.tle_line1, s.tle_line2)) (get_by_norad_id n rows)

as_number : Option Json → Option ℤ
as_number (some (number n)) = some n
as_number _ = none

-- The number that an event announces.
unfoldable pub announced_by : OutboxEvent → Option ℤ
unfolding as_number
announced_by event = as_number (lookup (codes "norad_id") event.payload)

IsRefreshed-announced :
    (n : ℤ) (i : ℕ) (event : OutboxEvent) → IsRefreshed n i event → announced_by event ≡ some n
unfolding announced_by as_number lookup str_eq
IsRefreshed-announced n i event told = rw told.payload refl

-- An unchanged row shows the lines of its record.
known_same :
    (r : TleRecord) (s : Satellite)
    → lines_differ s r ≡ false
    → (s.tle_line1 ≡ r.line1) × (s.tle_line2 ≡ r.line2)
unfolding lines_differ
known_same r s h =
    (ground (arith, str_eq_iff s.tle_line1 r.line1), ground (arith, str_eq_iff s.tle_line2 r.line2))

module _ {Float Wkb : Type 0} where
  -- The catalogue after a step has the record's lines under its number.
  learned :
      (n : ℤ) (r : TleRecord) (db : Database Float Wkb) (changed : Bool) (db' : Database Float Wkb)
      → IsStep n r db changed db'
      → catalogue_of db'.satellites ≡ learn n r (catalogue_of db.satellites)
  learned n r db changed db' step =
      let stored = step.stored in
      let (same1, same2) = known_same r stored.satellite stored.same in
      fun_ext λ m. elim (Bool-cases (int_eq m n)) [
        | inl same ↦
            let here : get_by_norad_id m db'.satellites ≡ some stored.satellite =
              ap (λ k. get_by_norad_id k db'.satellites) ((int_eq_iff m n).0 same) ∙ stored.found in
            rw (same, here, same1, same2) refl
        | inr apart ↦
            let differs : m ≢ n = λ same. absurd (cc (apart, (int_eq_iff m n).1 same)) in
            rw (apart, step.others m differs) refl
      ]

  -- A step moves the catalogue as one record does.
  step_takes_in :
      (n : ℤ) (r : TleRecord) (db : Database Float Wkb) (changed : Bool) (db' : Database Float Wkb)
      → IsStep n r db changed db'
      → (events : List OutboxEvent) × (db'.outbox_events ≡ db.outbox_events ++ events)
        × (catalogue_of db'.satellites ≡ (take_in_as r (some n) (catalogue_of db.satellites)).0)
        × (map announced_by events
            ≡ map some (take_in_as r (some n) (catalogue_of db.satellites)).1)
        × ((if changed then 1 else 0) ≡ length events)
  unfolding lines_differ
  step_takes_in n r db changed db' step =
      let lines : Satellite → Str × Str = λ s. (s.tle_line1, s.tle_line2) in
      elim step.events [
        | inl (unchanged, same) ↦
            let there : get_by_norad_id n db.satellites ≡ some step.stored.satellite =
              subst
                (λ (d : Database Float Wkb).
                  get_by_norad_id n d.satellites ≡ some step.stored.satellite)
                same step.stored.found in
            let seen : is_news r (catalogue_of db.satellites n) ≡ false =
              rw there step.stored.same in
            (
              [],
              rw append-nil (ap (λ (d : Database Float Wkb). d.outbox_events) same),
              rw seen (ap (λ (d : Database Float Wkb). catalogue_of d.satellites) same),
              rw seen refl,
              rw unchanged refl,
            )
        | inr (flag, event, grown, told) ↦
            let news : is_news r (catalogue_of db.satellites n) ≡ true =
              elim (Option-cases (get_by_norad_id n db.satellites)) [
                | inl missing ↦ rw missing refl
                | inr (e, there) ↦ rw there (step.differed flag e there)
              ] in
            (
              event ∷ [],
              grown,
              rw news (learned n r db changed db' step),
              rw news
                  (ap (λ o. o ∷ []) (IsRefreshed-announced n step.stored.satellite.id event told)),
              rw flag refl,
            )
      ]

  module _ (server : Server) (max_retries : ℕ) (tle_epoch : Str → Str → Option Instant) where
    run_takes_in :
        (rs : List TleRecord) (k : ℕ) (db : Database Float Wkb) (result : ℕ × Database Float Wkb)
        → HasKeys db
        → run server max_retries tle_epoch rs k db ≡ done result
        → (events : List OutboxEvent) × (result.1.outbox_events ≡ db.outbox_events ++ events)
          × (catalogue_of result.1.satellites ≡ (take_in rs (catalogue_of db.satellites)).0)
          × (map announced_by events ≡ map some (take_in rs (catalogue_of db.satellites)).1)
          × (result.0 ≡ k + length events)
    unfolding ingest_records take_in
    run_takes_in [] k db result keyed h =
        let same : (k, db) ≡ result = done_inj h in
        (
          [],
          rw append-nil (ap (λ (x : ℕ × Database Float Wkb). x.1.outbox_events) (sym same)),
          ap (λ (x : ℕ × Database Float Wkb). catalogue_of x.1.satellites) (sym same),
          refl,
          omega (arith, ap (λ (x : ℕ × Database Float Wkb). x.0) same),
        )
    run_takes_in (r ∷ rs) k db result keyed h =
        let f = first server max_retries tle_epoch r rs k db result keyed h in
        let (events1, grown1, known1, told1, counted1) =
          step_takes_in f.number r db f.changed f.db1 f.step in
        let known : Catalogue = catalogue_of db.satellites in
        let moved : catalogue_of f.db1.satellites ≡ (take_in_as r (tle_norad_id r.line1) known).0 =
          known1 ∙ ap (λ o. (take_in_as r o known).0) (sym f.numbered) in
        let (events2, grown2, known2, told2, counted2) =
          run_takes_in rs _ f.db1 result f.step.keyed f.rest in
        (
          events1 ++ events2,
          grown2 ∙ ap (λ es. es ++ events2) grown1 ∙ append_assoc db.outbox_events events1 events2,
          known2 ∙ ap (λ c. (take_in rs c).0) moved,
          map-append announced_by events1 events2
              ∙ rw (told1, told2) (sym (map-append some (take_in_as r (some f.number) known).1 _))
              ∙ ap (λ ns. map some ns)
                  (ap
                      (λ o.
                        (take_in_as r o known).1 ++ (take_in rs (catalogue_of f.db1.satellites)).1)
                      (sym f.numbered)
                    ∙ ap (λ c. (take_in_as r (tle_norad_id r.line1) known).1 ++ (take_in rs c).1)
                        moved),
          ground (arith, counted1, counted2, length-append events1 events2),
        )

-- A refresh that returns, in a table whose primary keys differ, refines the abstract catalogue of
-- lines by catalog number: the table shows the catalogue that taking in the records one by one makes
-- of the one it showed before, and the events that it appends to the outbox announce, in order, the
-- numbers whose lines were news at their turn, as many as it reports. Records may share numbers.
pub ingest-refines :
    {Float Wkb : Type 0} (server : Server) (max_retries : ℕ)
    (tle_epoch : Str → Str → Option Instant) (rs : List TleRecord) (db : Database Float Wkb) (n : ℕ)
    (db' : Database Float Wkb)
    → HasKeys db
    → ingest server max_retries tle_epoch (ok rs) db ≡ done (n, db')
    → (catalogue_of db'.satellites ≡ (take_in rs (catalogue_of db.satellites)).0)
      × ((events : List OutboxEvent) × (db'.outbox_events ≡ db.outbox_events ++ events)
          × (map announced_by events ≡ map some (take_in rs (catalogue_of db.satellites)).1)
          × (n ≡ length events))
unfolding ingest
ingest-refines server max_retries tle_epoch rs db n db' keyed h =
    let (events, grown, known, told, counted) =
      run_takes_in server max_retries tle_epoch rs 0 db (n, db') keyed h in
    (known, (events, grown, told, omega arith))
