-- ===== src/Tests/Migration.antt =====
-- The initial revision beside a table of another application.
use apsis.Prelude.{
  ◌+◌, ◌≤◌, Instant, codes, str_eq, true, false, none, some, List, [], ◌∷◌, ◌++◌, ◌≡◌, refl,
}
use apsis.Database.{first_where}
use apsis.Jobs.Model.{Job}
use apsis.Jobs.Worker.{candidate_ids}
use apsis.Tracking.Models.{Server}
use apsis.Migration.{Table, Schema, text, find_table, is_taken, table_takes}
use apsis.Migration.Initial.{upgrade, downgrade, upgrade_ops}
use apsis.Migration.Undo.{IsLinked}
use apsis.Migration.Frame.{AreFree}
use apsis.Migration.RoundTrip.{new_tables, new_indexes, downgrade-upgrade}

abbrev server : Server
server = record { now = 1000; gen_random_uuid = λ k. k + 100 }

abbrev notes : Table
notes = record {
  name = codes "notes";
  columns =
      record { name = codes "body"; type = text; server_default = none; nullable = false } ∷ [];
  primary_key = record { name = codes "pk_notes"; columns = codes "body" ∷ [] };
  unique = [];
  foreign_keys =
      record {
        name = codes "fk_notes";
        column = codes "body";
        table = codes "notes";
        target = codes "body";
        cascades = false;
      }
      ∷ [];
}

abbrev others : Schema
others = record { postgis = false; tables = notes ∷ []; indexes = [] }

others-IsLinked : IsLinked others
unfolding find_table first_where str_eq
others-IsLinked = record { keys = ((refl, tt), tt); indexes = tt }

names_free : AreFree upgrade_ops others
unfolding is_taken table_takes str_eq
names_free = (
  refl,
  (
    refl,
    (
      refl,
      (refl, (refl, (refl, (refl, (refl, (refl, (refl, (refl, (refl, (refl, (refl, tt))))))))))),
    ),
  ),
)

downgrade-upgrade_example :
    (s' : Schema) × (jobs : List Job) × (upgrade server others ≡ some (s', jobs))
    × (s'.tables ≡ new_tables ++ notes ∷ [])
    × (s'.indexes ≡ new_indexes ++ [])
    × ((now : Instant) → 1000 ≤ now → candidate_ids now jobs ≡ 100 ∷ [])
    × (downgrade s' ≡ some (record others { postgis = true }))
downgrade-upgrade_example = downgrade-upgrade server others others-IsLinked names_free
