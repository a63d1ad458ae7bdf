-- ===== src/Migration/Naming.antt =====
-- How constraints and indexes are named (`NAMING_CONVENTION` of app/core/db.py).
use apsis.Prelude.{
  Str, codes, str_eq, join, contains, Bool, true, ◌&&◌, ◌||◌, List, [], ◌∷◌, ◌++◌, all, ◌≡◌, refl,
}
use apsis.Migration.{Key, ForeignKey, Table}
use apsis.Migration.Initial.{
  ground_stations_table, satellites_table, pass_predictions_table, scheduled_jobs_table,
  outbox_events_table,
}

-- `%(column_0_N_name)s`: the names of the columns, joined.
unfoldable columns_name : List Str → Str
columns_name columns = join (codes "_") columns

unfoldable pub ix_name : (table : Str) → (columns : List Str) → Str
unfolding columns_name
ix_name table columns = codes "ix_" ++ table ++ codes "_" ++ columns_name columns

unfoldable pub uq_name : (table : Str) → (columns : List Str) → Str
unfolding columns_name
uq_name table columns = codes "uq_" ++ table ++ codes "_" ++ columns_name columns

unfoldable pub ck_name : (table constraint : Str) → Str
ck_name table constraint = codes "ck_" ++ table ++ codes "_" ++ constraint

unfoldable pub fk_name : (table column referred_table : Str) → Str
fk_name table column referred_table =
    codes "fk_" ++ table ++ codes "_" ++ column ++ codes "_" ++ referred_table

unfoldable pub pk_name : (table : Str) → Str
pk_name table = codes "pk_" ++ table

-- The key that the models name themselves.
abbrev pub named_keys : List Str
named_keys = codes "uq_pass_predictions_sat_station_aos" ∷ []

-- Whether the keys of a table have the names that the models or the convention give them.
unfoldable pub is_conventional : Table → Bool
unfolding uq_name fk_name pk_name
is_conventional t =
    str_eq t.primary_key.name (pk_name t.name)
    && all (λ (k : Key). contains named_keys k.name || str_eq k.name (uq_name t.name k.columns))
        t.unique
    && all (λ (k : ForeignKey). str_eq k.name (fk_name t.name k.column k.table)) t.foreign_keys

-- The keys of the initial revision are named so.
initial_is_conventional :
    all is_conventional (
      ground_stations_table ∷ satellites_table ∷ pass_predictions_table ∷ scheduled_jobs_table
      ∷ outbox_events_table ∷ [])
    ≡ true
unfolding is_conventional uq_name fk_name pk_name columns_name join str_eq contains
initial_is_conventional = refl
