-- ===== src/Migration/RoundTrip.antt =====
-- The initial revision, up and down again.
use apsis.Prelude.{
  ◌≤◌, str_eq, Instant, true, false, some, List, [], ◌∷◌, ◌++◌, leb, ◌≡◌, refl, sym, ◌∙◌, ap, arith,
}
use apsis.Database.{first_where}
use apsis.Jobs.Model.{Job}
use apsis.Jobs.Worker.{is_due, order_by_next_run, insert_by_next_run, candidate_ids}
use apsis.Tracking.Models.{Server}
use apsis.Migration.{
  Table, Index, Schema, table_takes, is_taken, find_table, table_fits, index_fits, execute_op,
  execute_ops,
}
use apsis.Migration.Initial.{
  upgrade_ops, downgrade_ops, seed_job, upgrade, downgrade, ground_stations_table,
  ground_stations_location, satellites_table, satellites_name, pass_predictions_table,
  pass_predictions_track, pass_predictions_station, scheduled_jobs_table, scheduled_jobs_pending,
  outbox_events_table, outbox_aggregate, outbox_correlation, outbox_pending,
}
use apsis.Migration.Undo.{IsLinked, undo, undo_lem}
use apsis.Migration.Frame.{beside, AreFree, execute_ops-beside}

abbrev pub new_tables : List Table
new_tables =
    outbox_events_table ∷ scheduled_jobs_table ∷ pass_predictions_table ∷ satellites_table
    ∷ ground_stations_table ∷ []

abbrev pub new_indexes : List Index
new_indexes =
    outbox_pending ∷ outbox_correlation ∷ outbox_aggregate ∷ scheduled_jobs_pending
    ∷ pass_predictions_station ∷ pass_predictions_track ∷ satellites_name ∷ ground_stations_location
    ∷ []

abbrev empty : Schema
empty = record { postgis = false; tables = []; indexes = [] }

abbrev made : Schema
made = record { postgis = true; tables = new_tables; indexes = new_indexes }

runs_alone : execute_ops upgrade_ops empty ≡ some made
unfolding execute_ops execute_op is_taken table_takes table_fits index_fits find_table first_where
    str_eq
runs_alone = refl

-- `downgrade` is the inverse of each statement of `upgrade`, the last one first.
downgrade_is_undo : undo upgrade_ops ≡ downgrade_ops
unfolding undo
downgrade_is_undo = refl

seeded_due :
    (server : Server) (now : Instant)
    → server.now ≤ now
    → candidate_ids now (seed_job server []) ≡ server.gen_random_uuid 0 ∷ []
unfolding seed_job candidate_ids is_due order_by_next_run insert_by_next_run
seeded_due server now later =
    let on_time : leb server.now now ≡ true = ground arith in rw on_time refl

-- In a schema whose foreign keys and indexes belong to tables that are there, and in which the names
-- of the initial revision are free, the upgrade succeeds: it adds the five tables and eight indexes
-- of the models to what is there, and one job, tle_refresh, which the job worker's first poll at any
-- later clock finds due; the downgrade then succeeds too, and leaves the schema as it was before
-- but for the extension PostGIS, which stays.
pub downgrade-upgrade :
    (server : Server) (s : Schema)
    → IsLinked s
    → AreFree upgrade_ops s
    → (s' : Schema) × (jobs : List Job) × (upgrade server s ≡ some (s', jobs))
      × (s'.tables ≡ new_tables ++ s.tables)
      × (s'.indexes ≡ new_indexes ++ s.indexes)
      × ((now : Instant)
          → server.now ≤ now
          → candidate_ids now jobs ≡ server.gen_random_uuid 0 ∷ [])
      × (downgrade s' ≡ some (record s { postgis = true }))
unfolding upgrade downgrade
downgrade-upgrade server s linked free =
    let s' = beside made s in
    let up : execute_ops upgrade_ops s ≡ some s' =
      execute_ops-beside upgrade_ops empty s made refl free runs_alone in
    (
      s',
      seed_job server [],
      rw up refl,
      refl,
      refl,
      seeded_due server,
      ap (λ ops. execute_ops ops s') (sym downgrade_is_undo)
          ∙ undo_lem upgrade_ops s s' refl linked up,
    )
