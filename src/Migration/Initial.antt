-- ===== src/Migration/Initial.antt =====
-- The initial revision (src/migrations/versions/3bc965b4d0d6_initial_schema.py).
use apsis.Prelude.{
  Str, codes, str_eq, true, false, Option, none, some, List, [], ◌∷◌, ◌++◌, any, if◌then◌else◌,
}
use mathlib.Core.Option
use apsis.Jobs.Model.{Job, pending}
use apsis.Tracking.Models.{Server}
use apsis.Migration.{
  ColumnType, uuid, text, integer, big_integer, float, timestamptz, jsonb, point_geometry,
  line_geometry, varchar, Column, Key, Table, Index, Schema, Op, create_postgis, create_table,
  create_index, drop_index, drop_table, execute_ops,
}

abbrev not_null : Str → ColumnType → Column
not_null name type = record { name = name; type = type; server_default = none; nullable = false }

abbrev or_null : Str → ColumnType → Column
or_null name type = record { name = name; type = type; server_default = none; nullable = true }

abbrev with_default : Str → ColumnType → Str → Column
with_default name type expression = record {
  name = name;
  type = type;
  server_default = some expression;
  nullable = false;
}

abbrev id_column : Column
id_column = with_default (codes "id") uuid (codes "gen_random_uuid()")

abbrev created_at_column : Column
created_at_column = with_default (codes "created_at") timestamptz (codes "now()")

abbrev updated_at_column : Column
updated_at_column = or_null (codes "updated_at") timestamptz

abbrev key_of : Str → List Str → Key
key_of name columns = record { name = name; columns = columns }

abbrev pub ground_stations_table : Table
ground_stations_table = record {
  name = codes "ground_stations";
  columns =
      not_null (codes "name") (varchar 255)
      ∷ not_null (codes "location") point_geometry
      ∷ with_default (codes "altitude_m") float (codes "0")
      ∷ id_column
      ∷ created_at_column
      ∷ updated_at_column
      ∷ [];
  primary_key = key_of (codes "pk_ground_stations") (codes "id" ∷ []);
  unique = key_of (codes "uq_ground_stations_name") (codes "name" ∷ []) ∷ [];
  foreign_keys = [];
}

abbrev pub ground_stations_location : Index
ground_stations_location = record {
  name = codes "idx_ground_stations_location";
  table = codes "ground_stations";
  columns = codes "location" ∷ [];
  is_gist = true;
  condition = none;
}

abbrev pub satellites_table : Table
satellites_table = record {
  name = codes "satellites";
  columns =
      not_null (codes "norad_id") big_integer
      ∷ not_null (codes "name") (varchar 255)
      ∷ not_null (codes "tle_line1") text
      ∷ not_null (codes "tle_line2") text
      ∷ not_null (codes "epoch") timestamptz
      ∷ id_column
      ∷ created_at_column
      ∷ updated_at_column
      ∷ [];
  primary_key = key_of (codes "pk_satellites") (codes "id" ∷ []);
  unique = key_of (codes "uq_satellites_norad_id") (codes "norad_id" ∷ []) ∷ [];
  foreign_keys = [];
}

abbrev pub satellites_name : Index
satellites_name = record {
  name = codes "ix_satellites_name";
  table = codes "satellites";
  columns = codes "name" ∷ [];
  is_gist = false;
  condition = none;
}

abbrev pub pass_predictions_table : Table
pass_predictions_table = record {
  name = codes "pass_predictions";
  columns =
      not_null (codes "satellite_id") uuid
      ∷ not_null (codes "ground_station_id") uuid
      ∷ not_null (codes "aos_at") timestamptz
      ∷ not_null (codes "los_at") timestamptz
      ∷ not_null (codes "peak_at") timestamptz
      ∷ not_null (codes "peak_elevation_deg") float
      ∷ not_null (codes "track") line_geometry
      ∷ id_column
      ∷ created_at_column
      ∷ updated_at_column
      ∷ [];
  primary_key = key_of (codes "pk_pass_predictions") (codes "id" ∷ []);
  unique =
      key_of (codes "uq_pass_predictions_sat_station_aos")
        (codes "satellite_id" ∷ codes "ground_station_id" ∷ codes "aos_at" ∷ [])
      ∷ [];
  foreign_keys =
      record {
        name = codes "fk_pass_predictions_ground_station_id_ground_stations";
        column = codes "ground_station_id";
        table = codes "ground_stations";
        target = codes "id";
        cascades = true;
      }
      ∷ record {
        name = codes "fk_pass_predictions_satellite_id_satellites";
        column = codes "satellite_id";
        table = codes "satellites";
        target = codes "id";
        cascades = true;
      }
      ∷ [];
}

abbrev pub pass_predictions_track : Index
pass_predictions_track = record {
  name = codes "idx_pass_predictions_track";
  table = codes "pass_predictions";
  columns = codes "track" ∷ [];
  is_gist = true;
  condition = none;
}

abbrev pub pass_predictions_station : Index
pass_predictions_station = record {
  name = codes "ix_pass_predictions_ground_station_id_aos_at";
  table = codes "pass_predictions";
  columns = codes "ground_station_id" ∷ codes "aos_at" ∷ [];
  is_gist = false;
  condition = none;
}

abbrev pub scheduled_jobs_table : Table
scheduled_jobs_table = record {
  name = codes "scheduled_jobs";
  columns =
      id_column
      ∷ not_null (codes "job_name") (varchar 255)
      ∷ or_null (codes "description") text
      ∷ not_null (codes "interval_seconds") integer
      ∷ with_default (codes "status") (varchar 20) (codes "PENDING")
      ∷ or_null (codes "last_run_at") timestamptz
      ∷ with_default (codes "next_run_at") timestamptz (codes "now()")
      ∷ or_null (codes "last_error") text
      ∷ with_default (codes "run_count") integer (codes "0")
      ∷ or_null (codes "claimed_by") (varchar 255)
      ∷ or_null (codes "lease_until") timestamptz
      ∷ created_at_column
      ∷ updated_at_column
      ∷ [];
  primary_key = key_of (codes "pk_scheduled_jobs") (codes "id" ∷ []);
  unique = key_of (codes "uq_scheduled_jobs_job_name") (codes "job_name" ∷ []) ∷ [];
  foreign_keys = [];
}

abbrev pub scheduled_jobs_pending : Index
scheduled_jobs_pending = record {
  name = codes "scheduled_jobs_pending_idx";
  table = codes "scheduled_jobs";
  columns = codes "next_run_at" ∷ [];
  is_gist = false;
  condition = some (codes "status = 'PENDING'");
}

abbrev pub outbox_events_table : Table
outbox_events_table = record {
  name = codes "outbox_events";
  columns =
      id_column
      ∷ or_null (codes "aggregate_id") uuid
      ∷ or_null (codes "correlation_id") uuid
      ∷ not_null (codes "event_type") (varchar 255)
      ∷ with_default (codes "payload") jsonb (codes "{}")
      ∷ with_default (codes "status") (varchar 20) (codes "PENDING")
      ∷ with_default (codes "retry_count") integer (codes "0")
      ∷ with_default (codes "max_retries") integer (codes "8")
      ∷ with_default (codes "scheduled_at") timestamptz (codes "now()")
      ∷ or_null (codes "last_error") text
      ∷ created_at_column
      ∷ or_null (codes "processed_at") timestamptz
      ∷ with_default (codes "handler_state") jsonb (codes "{}")
      ∷ [];
  primary_key = key_of (codes "pk_outbox_events") (codes "id" ∷ []);
  unique = [];
  foreign_keys = [];
}

abbrev outbox_index : Str → Str → Str → Index
outbox_index name column condition = record {
  name = name;
  table = codes "outbox_events";
  columns = column ∷ [];
  is_gist = false;
  condition = some condition;
}

abbrev pub outbox_aggregate : Index
outbox_aggregate =
    outbox_index (codes "outbox_events_aggregate_idx") (codes "aggregate_id")
      (codes "aggregate_id IS NOT NULL")

abbrev pub outbox_correlation : Index
outbox_correlation =
    outbox_index (codes "outbox_events_correlation_idx") (codes "correlation_id")
      (codes "correlation_id IS NOT NULL")

abbrev pub outbox_pending : Index
outbox_pending =
    outbox_index (codes "outbox_events_pending_idx") (codes "scheduled_at")
      (codes "status = 'PENDING'")

-- The statements of `upgrade` on the schema.
abbrev pub upgrade_ops : List Op
upgrade_ops =
    create_postgis
    ∷ create_table ground_stations_table
    ∷ create_index ground_stations_location
    ∷ create_table satellites_table
    ∷ create_index satellites_name
    ∷ create_table pass_predictions_table
    ∷ create_index pass_predictions_track
    ∷ create_index pass_predictions_station
    ∷ create_table scheduled_jobs_table
    ∷ create_index scheduled_jobs_pending
    ∷ create_table outbox_events_table
    ∷ create_index outbox_aggregate
    ∷ create_index outbox_correlation
    ∷ create_index outbox_pending
    ∷ []

-- The statements of `downgrade`.
abbrev pub downgrade_ops : List Op
downgrade_ops =
    drop_index (codes "outbox_events_pending_idx")
    ∷ drop_index (codes "outbox_events_correlation_idx")
    ∷ drop_index (codes "outbox_events_aggregate_idx")
    ∷ drop_table (codes "outbox_events")
    ∷ drop_index (codes "scheduled_jobs_pending_idx")
    ∷ drop_table (codes "scheduled_jobs")
    ∷ drop_index (codes "ix_pass_predictions_ground_station_id_aos_at")
    ∷ drop_index (codes "idx_pass_predictions_track")
    ∷ drop_table (codes "pass_predictions")
    ∷ drop_index (codes "ix_satellites_name")
    ∷ drop_table (codes "satellites")
    ∷ drop_index (codes "idx_ground_stations_location")
    ∷ drop_table (codes "ground_stations")
    ∷ []

-- The INSERT with ON CONFLICT (job_name) DO NOTHING.
unfoldable pub seed_job : Server → List Job → List Job
seed_job server jobs =
    if any (λ (j : Job). str_eq j.job_name (codes "tle_refresh")) jobs
    then jobs
    else jobs
      ++ record {
        id = server.gen_random_uuid 0;
        job_name = codes "tle_refresh";
        description = some (codes "Refresca los TLEs del grupo CelesTrak y upserta los satelites.");
        interval_seconds = 7200;
        status = pending;
        last_run_at = none;
        next_run_at = server.now;
        last_error = none;
        run_count = 0;
        claimed_by = none;
        lease_until = none;
        created_at = server.now;
        updated_at = none;
      }
        ∷ []

-- The schema and the rows of scheduled_jobs.
unfoldable pub upgrade : Server → Schema → Option (Schema × List Job)
unfolding execute_ops seed_job
upgrade server s = Option.map (λ s'. (s', seed_job server [])) (execute_ops upgrade_ops s)

unfoldable pub downgrade : Schema → Option Schema
unfolding execute_ops
downgrade s = execute_ops downgrade_ops s
