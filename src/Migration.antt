-- ===== src/Migration.antt =====
-- The schema of the database and the statements of a migration: the part of PostgreSQL's catalogue
-- that src/migrations uses, with the errors that stop a statement.
pub mod Initial
pub mod Naming
pub mod Environment
pub mod Undo
pub mod Frame
pub mod RoundTrip
use apsis.Prelude.{
  ℕ, Str, str_eq, Bool, true, false, not, ◌&&◌, ◌||◌, Option, none, some, List, [], ◌∷◌, ◌++◌, any,
  all, keep, is_some, contains, if◌then◌else◌,
}
use apsis.Database.{first_where}

pub data ColumnType : Type 0 where
  uuid text integer big_integer float timestamptz jsonb point_geometry line_geometry : ColumnType
  varchar : ℕ → ColumnType

-- A column; its server default is the text of an expression.
pub record Column : Type 0 where
  pub name : Str
  pub type : ColumnType
  pub server_default : Option Str
  pub nullable : Bool

pub record Key : Type 0 where
  pub name : Str
  pub columns : List Str

pub record ForeignKey : Type 0 where
  pub name : Str
  pub column : Str
  pub table : Str
  pub target : Str
  pub cascades : Bool

pub record Table : Type 0 where
  pub name : Str
  pub columns : List Column
  pub primary_key : Key
  pub unique : List Key
  pub foreign_keys : List ForeignKey

pub record Index : Type 0 where
  pub name : Str
  pub table : Str
  pub columns : List Str
  pub is_gist : Bool
  pub condition : Option Str

-- Tables and indexes, the latest first.
pub record Schema : Type 0 where
  pub postgis : Bool
  pub tables : List Table
  pub indexes : List Index

-- The statements. geoalchemy2's operations on tables and indexes act as these do.
pub data Op : Type 0 where
  create_postgis : Op
  create_table : Table → Op
  create_index : Index → Op
  drop_index : (name : Str) → Op
  drop_table : (name : Str) → Op

-- The names that a table takes: tables and the indexes of its keys share one name space.
unfoldable pub table_takes : Str → Table → Bool
table_takes n t =
    str_eq t.name n || str_eq t.primary_key.name n || any (λ (k : Key). str_eq k.name n) t.unique

unfoldable pub is_taken : Str → Schema → Bool
unfolding table_takes
is_taken n s = any (table_takes n) s.tables || any (λ (i : Index). str_eq i.name n) s.indexes

abbrev pub key_names : List Key → List Str
key_names [] = []
key_names (k ∷ ks) = k.name ∷ key_names ks

-- The names that a new table wants.
abbrev pub names_of : Table → List Str
names_of t = t.name ∷ t.primary_key.name ∷ key_names t.unique

unfoldable pub find_table : Str → List Table → Option Table
unfolding first_where
find_table n tables = first_where (λ (t : Table). str_eq t.name n) tables

abbrev pub has_column : Table → Str → Bool
has_column t n = any (λ (c : Column). str_eq c.name n) t.columns

abbrev pub has_column_in : Option Table → Str → Bool
has_column_in none n = false
has_column_in (some t) n = has_column t n

abbrev pub is_spatial : ColumnType → Bool
is_spatial point_geometry = true
is_spatial line_geometry = true
is_spatial _ = false

-- What CREATE TABLE asks for besides free names: the types, and the columns that its foreign keys name.
unfoldable pub table_fits : Table → Schema → Bool
unfolding find_table
table_fits t s =
    (s.postgis || not (any (λ (c : Column). is_spatial c.type) t.columns))
    && all (λ (k : ForeignKey). has_column_in (find_table k.table s.tables) k.target) t.foreign_keys

-- What CREATE INDEX asks for besides a free name.
unfoldable pub index_fits : Index → Schema → Bool
unfolding find_table
index_fits i s =
    all (has_column_in (find_table i.table s.tables)) i.columns
    && is_some (find_table i.table s.tables)

-- Does a foreign key of another table name this one?
unfoldable pub is_referenced : Str → List Table → Bool
is_referenced n tables =
    any
      (λ (t : Table).
        not (str_eq t.name n) && any (λ (k : ForeignKey). str_eq k.table n) t.foreign_keys)
      tables

-- One statement; `none` is its error, which ends the migration and rolls it back.
unfoldable pub execute_op : Op → Schema → Option Schema
unfolding is_taken table_fits index_fits is_referenced find_table
execute_op create_postgis s = some (record s { postgis = true })
execute_op (create_table t) s =
    if any (λ n. is_taken n s) (names_of t) || not (table_fits t s)
    then none
    else some (record s { tables = t ∷ s.tables })
execute_op (create_index i) s =
    if is_taken i.name s || not (index_fits i s)
    then none
    else some (record s { indexes = i ∷ s.indexes })
execute_op (drop_index n) s =
    if any (λ (i : Index). str_eq i.name n) s.indexes
    then some (record s { indexes = keep (λ (i : Index). not (str_eq i.name n)) s.indexes })
    else none
execute_op (drop_table n) s =
    if not (is_some (find_table n s.tables)) || is_referenced n s.tables
    then none
    else some (record s {
      tables = keep (λ (t : Table). not (str_eq t.name n)) s.tables;
      indexes = keep (λ (i : Index). not (str_eq i.table n)) s.indexes;
    })

unfoldable pub execute_ops : List Op → Schema → Option Schema
unfolding execute_op
execute_ops [] s = some s
execute_ops (op ∷ ops) s = elim (execute_op op s) [ none ↦ none | some s' ↦ execute_ops ops s' ]
