-- ===== src/Tracking/Ingest/Steps.antt =====
-- One turn of the loop over the records.
use mathlib.Core.Path.{subst}
use apsis.Prelude.{
  some_inj, ℕ, ℤ, int_eq, int_eq_iff, int_eq_refl, Str, str_eq_refl, Instant, Bool, true, false,
  Option, none, some, List, [], ◌∷◌, ◌++◌, ◌==◌, ==_refl, ==_iff, Bool-cases, Option-cases, inl,
  inr, ◌⊎◌, ◌≡◌, ◌≢◌, refl, sym, ◌∙◌, ap,
}
use apsis.Events.Outbox.{OutboxEvent}
use apsis.Celestrak.Types.{TleRecord}
use apsis.Database.{first_where}
use apsis.Database.Select.{
  or_else, first_where-append, first_where-set_where, first_where_passes, IsKeyed, same_row,
  insert-IsKeyed, set_where-IsKeyed,
}
use apsis.Tracking.Models.{Satellite, Database, Server, done, Attempt-cases}
use apsis.Tracking.Repos.{get_by_norad_id, create_satellite, update_satellite}
use apsis.Tracking.Ingest.{tle_norad_id, lines_differ, required, upsert, ingest_record}
use apsis.Tracking.Ingest.Rows.{
  IsCreated, create_satellite-IsCreated, IsUpdated, update_satellite-IsUpdated, IsRefreshed,
  publish_refreshed-IsPublished, done_inj,
}

abbrev pub HasKeys : {Float Wkb : Type 0} → Database Float Wkb → Type 0
HasKeys db = IsKeyed (λ (s : Satellite). s.id) db.satellites

-- A satellite with a number and the lines of a record.
pub record IsStored (norad_id : ℤ) (r : TleRecord) (rows : List Satellite) : Type 0 where
  pub satellite : Satellite
  pub found : get_by_norad_id norad_id rows ≡ some satellite
  pub same : lines_differ satellite r ≡ false

-- What happened to the row with the record's number, and to the outbox.
pub record IsStep {Float Wkb : Type 0} (norad_id : ℤ) (r : TleRecord) (db : Database Float Wkb)
    (changed : Bool) (db' : Database Float Wkb) : Type 0 where
  pub stored : IsStored norad_id r db'.satellites
  pub others :
      (m : ℤ) → m ≢ norad_id → get_by_norad_id m db'.satellites ≡ get_by_norad_id m db.satellites
  pub keeps_id :
      (e : Satellite) → get_by_norad_id norad_id db.satellites ≡ some e → stored.satellite.id ≡ e.id
  pub keyed : HasKeys db'
  pub differed :
      changed ≡ true
      → (e : Satellite) → get_by_norad_id norad_id db.satellites ≡ some e
      → lines_differ e r ≡ true
  pub events :
      ((changed ≡ false) × (db' ≡ db))
      ⊎ ((changed ≡ true)
          × (event : OutboxEvent) × (db'.outbox_events ≡ db.outbox_events ++ event ∷ [])
          × IsRefreshed norad_id stored.satellite.id event)

untrue : false ≡ true → ⊥
untrue h = cc

lines_same :
    (s : Satellite) (r : TleRecord)
    → s.tle_line1 ≡ r.line1
    → s.tle_line2 ≡ r.line2
    → lines_differ s r ≡ false
unfolding lines_differ
lines_same s r h k = rw (h, k, str_eq_refl r.line1, str_eq_refl r.line2)

or_else-none : (o : Option Satellite) → or_else o none ≡ o
unfolding or_else
or_else-none none = refl
or_else-none (some s) = refl

module _ {Float Wkb : Type 0} where
  created_found :
      (norad_id : ℤ) (db : Database Float Wkb) (s : Satellite) (db' : Database Float Wkb)
      → IsCreated norad_id db s db'
      → get_by_norad_id norad_id db'.satellites ≡ some s
  unfolding get_by_norad_id first_where or_else
  created_found norad_id db s db' c =
      rw
        (
          c.rows,
          first_where-append (λ (t : Satellite). int_eq t.norad_id norad_id) db.satellites (s ∷ []),
        )
        (rw (c.no_such, c.number, int_eq_refl norad_id))

  created_others :
      (norad_id : ℤ) (db : Database Float Wkb) (s : Satellite) (db' : Database Float Wkb)
      → IsCreated norad_id db s db'
      → (m : ℤ) → m ≢ norad_id
      → get_by_norad_id m db'.satellites ≡ get_by_norad_id m db.satellites
  unfolding get_by_norad_id first_where or_else
  created_others norad_id db s db' c m differs =
      let differ : int_eq s.norad_id m ≡ false = elim (Bool-cases (int_eq s.norad_id m)) [
        | inl same ↦ absurd (differs (sym ((int_eq_iff s.norad_id m).0 same) ∙ c.number))
        | inr fails ↦ fails
      ] in
      rw
        (
          c.rows,
          first_where-append (λ (t : Satellite). int_eq t.norad_id m) db.satellites (s ∷ []),
          differ,
        )
        (or_else-none (first_where (λ t. int_eq t.norad_id m) db.satellites))

  updated_found :
      (norad_id : ℤ) (entity : Satellite) (db : Database Float Wkb) (s : Satellite)
      (db' : Database Float Wkb)
      → IsUpdated entity db s db'
      → get_by_norad_id norad_id db.satellites ≡ some entity
      → get_by_norad_id norad_id db'.satellites ≡ some s
  unfolding get_by_norad_id
  updated_found norad_id entity db s db' u found =
      rw
        (
          u.rows,
          first_where-set_where (λ (t : Satellite). int_eq t.norad_id norad_id)
              (λ t. t.id == entity.id) u.changed
              (λ t. ap (λ n. int_eq n norad_id) (u.keeps_number t)) db.satellites,
          found,
          ==_refl entity.id,
          u.row,
        )
        refl

  updated_others :
      (norad_id : ℤ) (entity : Satellite) (db : Database Float Wkb) (s : Satellite)
      (db' : Database Float Wkb)
      → IsUpdated entity db s db'
      → HasKeys db
      → get_by_norad_id norad_id db.satellites ≡ some entity
      → (m : ℤ) → m ≢ norad_id
      → get_by_norad_id m db'.satellites ≡ get_by_norad_id m db.satellites
  unfolding get_by_norad_id
  updated_others norad_id entity db s db' u keyed found m differs =
      let of_number : (k : ℤ) → Satellite → Bool = λ k t. int_eq t.norad_id k in
      rw
        (
          u.rows,
          first_where-set_where (of_number m) (λ t. t.id == entity.id) u.changed
              (λ t. ap (λ n. int_eq n m) (u.keeps_number t)) db.satellites,
        )
        (elim (Option-cases (first_where (of_number m) db.satellites)) [
          | inl missing ↦ rw missing refl
          | inr (t, there) ↦
              let apart : (t.id == entity.id) ≡ false = elim (Bool-cases (t.id == entity.id)) [
                | inl same ↦
                    let same_one : t ≡ entity =
                      same_row (λ (x : Satellite). x.id) (of_number m) (of_number norad_id)
                        db.satellites keyed there found ((==_iff t.id entity.id).0 same) in
                    let t_number : t.norad_id ≡ m =
                      (int_eq_iff t.norad_id m).0
                        (first_where_passes (of_number m) db.satellites there) in
                    let e_number : entity.norad_id ≡ norad_id =
                      (int_eq_iff entity.norad_id norad_id).0
                        (first_where_passes (of_number norad_id) db.satellites found) in
                    absurd (
                      differs
                        (sym t_number ∙ ap (λ (x : Satellite). x.norad_id) same_one ∙ e_number))
                | inr fails ↦ fails
              ] in
              rw (there, apart) refl
        ])

module _ {Float Wkb : Type 0} (server : Server) (max_retries : ℕ)
    (tle_epoch : Str → Str → Option Instant) where
  new-IsStep :
      (r : TleRecord) (n : ℤ) (db : Database Float Wkb) {changed : Bool} {db' : Database Float Wkb}
      → HasKeys db
      → get_by_norad_id n db.satellites ≡ none
      → upsert server max_retries tle_epoch r n none db ≡ done (changed, db')
      → IsStep n r db changed db'
  unfolding upsert required
  new-IsStep r n db {changed} {db'} keyed missing h =
      elim (Option-cases (tle_epoch r.line1 r.line2)) [
        | inl no_epoch ↦ absurd (cc (rw (no_epoch, upsert, required) at h))
        | inr (epoch, has_epoch) ↦
            elim (Attempt-cases (create_satellite server n r.name r.line1 r.line2 epoch db)) [
              | inl (f, failed) ↦ absurd (cc (rw (has_epoch, failed, upsert, required) at h))
              | inr ((s, db1), created) ↦
                  let (c, same1, same2) =
                    create_satellite-IsCreated server n r.name r.line1 r.line2 epoch db created in
                  let p =
                    publish_refreshed-IsPublished server max_retries n s db1
                      (rw (has_epoch, created, upsert, required) at h) in
                  record {
                    stored = record {
                      satellite = s;
                      found = rw p.rows (created_found n db s db1 c);
                      same = lines_same s r same1 same2;
                    };
                    others = λ m differs. rw p.rows (created_others n db s db1 c m differs);
                    keeps_id = λ e found. absurd (cc);
                    differed = λ flag e found. absurd (cc);
                    keyed =
                        rw (p.rows, c.rows)
                          (insert-IsKeyed (λ (t : Satellite). t.id) db.satellites s keyed c.new);
                    events = inr (
                      p.flag,
                      p.event,
                      p.events ∙ ap (λ es. es ++ p.event ∷ []) c.events,
                      p.refreshed,
                    );
                  }
            ]
      ]

  old-IsStep :
      (r : TleRecord) (n : ℤ) (e : Satellite) (db : Database Float Wkb) {changed : Bool}
      {db' : Database Float Wkb}
      → HasKeys db
      → get_by_norad_id n db.satellites ≡ some e
      → upsert server max_retries tle_epoch r n (some e) db ≡ done (changed, db')
      → IsStep n r db changed db'
  unfolding upsert required
  old-IsStep r n e db {changed} {db'} keyed there h = elim (Bool-cases (lines_differ e r)) [
    | inr same ↦
        let same_db : (false, db) ≡ (changed, db') = done_inj (rw (same, upsert) at h) in
        subst (λ (x : Bool × Database Float Wkb). IsStep n r db x.0 x.1) same_db
          (record {
            stored = record { satellite = e; found = there; same = same };
            others = λ m differs. refl;
            keeps_id = λ f found. ap (λ (x : Satellite). x.id) (some_inj (sym there ∙ found));
            differed = λ flag f found. absurd (untrue flag);
            keyed = keyed;
            events = inl (refl, refl);
          })
    | inl differ ↦ elim (Option-cases (tle_epoch r.line1 r.line2)) [
      | inl no_epoch ↦ absurd (cc (rw (differ, no_epoch, upsert, required) at h))
      | inr (epoch, has_epoch) ↦
          elim (Attempt-cases (update_satellite server e r.name r.line1 r.line2 epoch db)) [
            | inl (f, failed) ↦ absurd (cc (rw (differ, has_epoch, failed, upsert, required) at h))
            | inr ((s, db1), updated) ↦
                let (u, same1, same2) =
                  update_satellite-IsUpdated server e r.name r.line1 r.line2 epoch db updated in
                let p =
                  publish_refreshed-IsPublished server max_retries n s db1
                    (rw (differ, has_epoch, updated, upsert, required) at h) in
                record {
                  stored = record {
                    satellite = s;
                    found = rw p.rows (updated_found n e db s db1 u there);
                    same = lines_same s r same1 same2;
                  };
                  others =
                      λ m differs. rw p.rows (updated_others n e db s db1 u keyed there m differs);
                  keeps_id = λ f found. ap (λ (x : Satellite). x.id) u.row ∙ u.keeps_id e ∙ cc;
                  differed = λ flag f found.
                      ap (λ x. lines_differ x r) (some_inj (sym found ∙ there)) ∙ differ;
                  keyed =
                      rw (p.rows, u.rows)
                        (set_where-IsKeyed (λ (t : Satellite). t.id) (λ t. t.id == e.id) u.changed
                          u.keeps_id db.satellites keyed);
                  events = inr (
                    p.flag,
                    p.event,
                    p.events ∙ ap (λ es. es ++ p.event ∷ []) u.events,
                    p.refreshed,
                  );
                }
          ]
    ]
  ]

  -- A turn that returns has read a number and is a step for it.
  pub ingest_record-IsStep :
      (r : TleRecord) (db : Database Float Wkb) {changed : Bool} {db' : Database Float Wkb}
      → HasKeys db
      → ingest_record server max_retries tle_epoch r db ≡ done (changed, db')
      → (n : ℤ) × (tle_norad_id r.line1 ≡ some n) × IsStep n r db changed db'
  unfolding ingest_record required
  ingest_record-IsStep r db {changed} {db'} keyed h = elim (Option-cases (tle_norad_id r.line1)) [
    | inl no_number ↦ absurd (cc (rw (no_number, ingest_record, required) at h))
    | inr (n, numbered) ↦ elim (Option-cases (get_by_norad_id n db.satellites)) [
      | inl missing ↦ (
        n,
        numbered,
        new-IsStep r n db keyed missing (rw (numbered, missing, ingest_record, required) at h),
      )
      | inr (e, there) ↦ (
        n,
        numbered,
        old-IsStep r n e db keyed there (rw (numbered, there, ingest_record, required) at h),
      )
    ]
  ]
