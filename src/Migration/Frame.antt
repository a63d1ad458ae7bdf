-- ===== src/Migration/Frame.antt =====
-- A script that runs on the empty schema runs beside whatever a schema holds, if its names are free.
use mathlib.Core.Path.{subst}
use apsis.Prelude.{
  some_inj, Str, str_eq, Bool, true, false, not, ◌||◌, some, List, [], ◌∷◌, ◌++◌, any, all, is_some,
  Bool-cases, Option-cases, inl, inr, ◌≡◌, refl, ap, arith,
}
use apsis.Database.{first_where}
use apsis.Database.Select.{any-append, first_where-append, or_else}
use apsis.Migration.{
  ForeignKey, Table, Index, Schema, Op, create_postgis, create_table, create_index, drop_index,
  drop_table, table_takes, is_taken, names_of, find_table, has_column_in, table_fits, index_fits,
  execute_op, execute_ops,
}
use apsis.Migration.Undo.{is_creation, untrue, created_table, created_index}

-- A schema beside another.
abbrev pub beside : Schema → Schema → Schema
beside e s = record {
  postgis = e.postgis || s.postgis;
  tables = e.tables ++ s.tables;
  indexes = e.indexes ++ s.indexes;
}

abbrev pub wanted_by : Op → List Str
wanted_by create_postgis = []
wanted_by (create_table t) = names_of t
wanted_by (create_index i) = i.name ∷ []
wanted_by (drop_index n) = []
wanted_by (drop_table n) = []

-- None of the names that a script wants is taken.
abbrev pub AreFree : List Op → Schema → Type 0
AreFree [] s = Unit
AreFree (op ∷ ops) s = (any (λ n. is_taken n s) (wanted_by op) ≡ false) × AreFree ops s

swap_or : (a b c d : Bool) → ((a || b) || (c || d)) ≡ ((a || c) || (b || d))
swap_or a b c d = ground arith

module _ (e s : Schema) where
  beside_taken : (n : Str) → is_taken n (beside e s) ≡ (is_taken n e || is_taken n s)
  unfolding is_taken
  beside_taken n =
      rw
        (
          any-append (table_takes n) e.tables s.tables,
          any-append (λ (i : Index). str_eq i.name n) e.indexes s.indexes,
        )
        (swap_or (any (table_takes n) e.tables) (any (table_takes n) s.tables)
          (any (λ (i : Index). str_eq i.name n) e.indexes)
          (any (λ (i : Index). str_eq i.name n) s.indexes))

  beside_free :
      (ns : List Str)
      → any (λ n. is_taken n e) ns ≡ false
      → any (λ n. is_taken n s) ns ≡ false
      → any (λ n. is_taken n (beside e s)) ns ≡ false
  beside_free [] h k = refl
  beside_free (n ∷ ns) h k = rw (beside_taken n) (ground (arith, beside_free ns))

  beside_column :
      (m n : Str)
      → has_column_in (find_table m e.tables) n ≡ true
      → has_column_in (find_table m (e.tables ++ s.tables)) n ≡ true
  unfolding find_table or_else
  beside_column m n h =
      rw (first_where-append (λ (t : Table). str_eq t.name m) e.tables s.tables)
        (elim (Option-cases (first_where (λ (t : Table). str_eq t.name m) e.tables)) [
          | inl missing ↦ absurd (cc (rw missing at h))
          | inr (t, there) ↦ rw there (rw there at h)
        ])

  beside_there :
      (m : Str)
      → is_some (find_table m e.tables) ≡ true
      → is_some (find_table m (e.tables ++ s.tables)) ≡ true
  unfolding find_table or_else
  beside_there m h =
      rw (first_where-append (λ (t : Table). str_eq t.name m) e.tables s.tables)
        (elim (Option-cases (first_where (λ (t : Table). str_eq t.name m) e.tables)) [
          | inl missing ↦ absurd (cc (rw missing at h))
          | inr (t, there) ↦ rw there refl
        ])

  beside_keys :
      (ks : List ForeignKey)
      → all (λ (k : ForeignKey). has_column_in (find_table k.table e.tables) k.target) ks ≡ true
      → all
          (λ (k : ForeignKey). has_column_in (find_table k.table (e.tables ++ s.tables)) k.target)
          ks
        ≡ true
  beside_keys [] h = refl
  beside_keys (k ∷ ks) h = ground (arith, beside_column k.table k.target, beside_keys ks)

  beside-table_fits : (t : Table) → table_fits t e ≡ true → table_fits t (beside e s) ≡ true
  unfolding table_fits
  beside-table_fits t h = ground (arith, beside_keys t.foreign_keys)

  beside_columns :
      (m : Str) (ns : List Str)
      → all (has_column_in (find_table m e.tables)) ns ≡ true
      → all (has_column_in (find_table m (e.tables ++ s.tables))) ns ≡ true
  beside_columns m [] h = refl
  beside_columns m (n ∷ ns) h = ground (arith, beside_column m n, beside_columns m ns)

  beside-index_fits : (i : Index) → index_fits i e ≡ true → index_fits i (beside e s) ≡ true
  unfolding index_fits
  beside-index_fits i h = ground (arith, beside_columns i.table i.columns, beside_there i.table)

  beside_op :
      (op : Op) (e' : Schema)
      → is_creation op ≡ true
      → any (λ n. is_taken n s) (wanted_by op) ≡ false
      → execute_op op e ≡ some e'
      → execute_op op (beside e s) ≡ some (beside e' s)
  unfolding execute_op
  beside_op create_postgis e' creation free h =
      subst (λ (x : Schema). execute_op create_postgis (beside e s) ≡ some (beside x s))
        (some_inj h) refl
  beside_op (create_table t) e' creation free h =
      elim (Bool-cases (any (λ n. is_taken n e) (names_of t) || not (table_fits t e))) [
        | inl bad ↦ absurd (cc (rw (bad, execute_op) at h))
        | inr good ↦
            let (name_free, fits, same) = created_table t e e' h in
            let all_free = beside_free (names_of t) (ground arith) free in
            subst (λ (x : Schema). execute_op (create_table t) (beside e s) ≡ some (beside x s))
              same (rw (all_free, beside-table_fits t fits, execute_op) refl)
      ]
  beside_op (create_index i) e' creation free h =
      let (name_free, fits, same) = created_index i e e' h in
      let still_free : is_taken i.name (beside e s) ≡ false =
        rw (beside_taken i.name, name_free) (ground arith) in
      subst (λ (x : Schema). execute_op (create_index i) (beside e s) ≡ some (beside x s)) same
        (rw (still_free, beside-index_fits i fits, execute_op) refl)
  beside_op (drop_index n) e' creation free h = absurd (untrue creation)
  beside_op (drop_table n) e' creation free h = absurd (untrue creation)

-- Beside any schema that takes none of its names, a script of creations does what it does alone.
pub execute_ops-beside :
    (ops : List Op) (e s e' : Schema)
    → all is_creation ops ≡ true
    → AreFree ops s
    → execute_ops ops e ≡ some e'
    → execute_ops ops (beside e s) ≡ some (beside e' s)
unfolding execute_ops
execute_ops-beside [] e s e' creations free h = ap (λ (x : Schema). some (beside x s)) (some_inj h)
execute_ops-beside (op ∷ ops) e s e' creations free h = elim (Option-cases (execute_op op e)) [
  | inl failed ↦ absurd (cc (rw (failed, execute_ops) at h))
  | inr (e1, went) ↦
      rw (beside_op e s op e1 (ground arith) free.0 went, execute_ops)
        (execute_ops-beside ops e1 s e' (ground arith) free.1 (rw (went, execute_ops) at h))
]
