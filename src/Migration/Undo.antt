-- ===== src/Migration/Undo.antt =====
-- What the inverse statements, in reverse order, do to a schema that a script of creations has made.
use mathlib.Core.Path.{subst}
use apsis.Prelude.{
  some_inj, Str, str_eq, str_eq_iff, str_eq_refl, Bool, true, false, not, ◌||◌, Option, none, some,
  List, [], ◌∷◌, ◌++◌, any, all, All, keep, is_some, Bool-cases, Option-cases, inl, inr, ◌≡◌, refl,
  sym, ◌∙◌, ap, arith,
}
use apsis.Database.{first_where}
use apsis.Database.Select.{first_where-any}
use apsis.Migration.{
  ForeignKey, Table, Index, Schema, Op, create_postgis, create_table, create_index, drop_index,
  drop_table, table_takes, is_taken, names_of, find_table, has_column_in, table_fits, index_fits,
  is_referenced, execute_op, execute_ops,
}

-- Foreign keys and indexes belong to tables that are there.
pub record IsLinked (s : Schema) : Type 0 where
  pub keys :
      All
        (λ (t : Table).
          All (λ (k : ForeignKey). is_some (find_table k.table s.tables) ≡ true) t.foreign_keys)
        s.tables
  pub indexes : All (λ (i : Index). is_some (find_table i.table s.tables) ≡ true) s.indexes

abbrev pub is_creation : Op → Bool
is_creation create_postgis = true
is_creation (create_table t) = true
is_creation (create_index i) = true
is_creation (drop_index n) = false
is_creation (drop_table n) = false

-- The inverses of the creations, the last one first; an extension stays.
unfoldable pub undo : List Op → List Op
undo [] = []
undo (create_postgis ∷ ops) = undo ops
undo (create_table t ∷ ops) = undo ops ++ drop_table t.name ∷ []
undo (create_index i ∷ ops) = undo ops ++ drop_index i.name ∷ []
undo (drop_index n ∷ ops) = undo ops
undo (drop_table n ∷ ops) = undo ops

pub execute_ops-append :
    (ops others : List Op) (s s' : Schema)
    → execute_ops ops s ≡ some s'
    → execute_ops (ops ++ others) s ≡ execute_ops others s'
unfolding execute_ops
execute_ops-append [] others s s' h = ap (execute_ops others) (cc)
execute_ops-append (op ∷ ops) others s s' h = elim (Option-cases (execute_op op s)) [
  | inl failed ↦ absurd (cc (rw (failed, execute_ops) at h))
  | inr (s1, went) ↦
      rw (went, execute_ops) (execute_ops-append ops others s1 s' (rw (went, execute_ops) at h))
]

keep-absent :
    {A : Type 0} (p : A → Bool) (xs : List A) → any p xs ≡ false → keep (λ x. not (p x)) xs ≡ xs
keep-absent p [] h = refl
keep-absent p (x ∷ xs) h = elim (Bool-cases (p x)) [
  | inl holds ↦ absurd (cc (rw holds at h))
  | inr fails ↦ rw fails (ap (λ ys. x ∷ ys) (keep-absent p xs (rw fails at h)))
]

any_less :
    {A : Type 0} (p q : A → Bool) (xs : List A)
    → ((x : A) → p x ≡ true → q x ≡ true)
    → any q xs ≡ false
    → any p xs ≡ false
any_less p q [] less h = refl
any_less p q (x ∷ xs) less h = ground (arith, less x, any_less p q xs less)

-- A name that nothing takes is no table's and no index's.
free_table :
    (n : Str) (s : Schema)
    → is_taken n s ≡ false
    → any (λ (t : Table). str_eq t.name n) s.tables ≡ false
unfolding is_taken table_takes
free_table n s h =
    any_less (λ (t : Table). str_eq t.name n) (table_takes n) s.tables (λ t is_n. rw is_n refl)
      (ground arith)

free_index :
    (n : Str) (s : Schema)
    → is_taken n s ≡ false
    → any (λ (i : Index). str_eq i.name n) s.indexes ≡ false
unfolding is_taken
free_index n s h = ground arith

-- A table that is there has another name.
other_name :
    (m n : Str) (tables : List Table)
    → is_some (find_table m tables) ≡ true
    → any (λ (t : Table). str_eq t.name n) tables ≡ false
    → str_eq m n ≡ false
unfolding find_table
other_name m n tables there absent = elim (Bool-cases (str_eq m n)) [
  | inr differs ↦ differs
  | inl same ↦
      let missing : first_where (λ (t : Table). str_eq t.name m) tables ≡ none =
        rw ((str_eq_iff m n).0 same)
          (first_where-any (λ (t : Table). str_eq t.name n) tables absent) in
      absurd (cc (rw missing at there))
]

module _ (n : Str) (tables : List Table)
    (absent : any (λ (t : Table). str_eq t.name n) tables ≡ false) where
  no_key_names :
      (ks : List ForeignKey)
      → All (λ (k : ForeignKey). is_some (find_table k.table tables) ≡ true) ks
      → any (λ (k : ForeignKey). str_eq k.table n) ks ≡ false
  no_key_names [] h = refl
  no_key_names (k ∷ ks) h = rw (other_name k.table n tables h.0 absent) (no_key_names ks h.1)

  not_referenced :
      (us : List Table)
      → All
          (λ (t : Table).
            All (λ (k : ForeignKey). is_some (find_table k.table tables) ≡ true) t.foreign_keys)
          us
      → is_referenced n us ≡ false
  unfolding is_referenced
  not_referenced [] h = refl
  not_referenced (u ∷ us) h =
      rw (no_key_names u.foreign_keys h.0) (ground (arith, not_referenced us h.1))

  no_index_of :
      (is : List Index)
      → All (λ (i : Index). is_some (find_table i.table tables) ≡ true) is
      → any (λ (i : Index). str_eq i.table n) is ≡ false
  no_index_of [] h = refl
  no_index_of (i ∷ is) h = rw (other_name i.table n tables h.0 absent) (no_index_of is h.1)

-- The table that was created last can be dropped, and the schema is as it was.
drop_created :
    (t : Table) (s : Schema) (p : Bool)
    → is_taken t.name s ≡ false
    → IsLinked s
    → execute_op (drop_table t.name) (record s { postgis = p; tables = t ∷ s.tables })
      ≡ some (record s { postgis = p })
unfolding execute_op find_table first_where is_referenced
drop_created t s p free linked =
    let absent = free_table t.name s free in
    rw
      (
        str_eq_refl t.name,
        not_referenced t.name s.tables absent s.tables linked.keys,
        keep-absent (λ (u : Table). str_eq u.name t.name) s.tables absent,
        keep-absent (λ (i : Index). str_eq i.table t.name) s.indexes
            (no_index_of t.name s.tables absent s.indexes linked.indexes),
      )
      refl

drop_indexed :
    (i : Index) (s : Schema) (p : Bool)
    → is_taken i.name s ≡ false
    → execute_op (drop_index i.name) (record s { postgis = p; indexes = i ∷ s.indexes })
      ≡ some (record s { postgis = p })
unfolding execute_op
drop_indexed i s p free =
    rw
      (
        str_eq_refl i.name,
        keep-absent (λ (j : Index). str_eq j.name i.name) s.indexes (free_index i.name s free),
      )
      refl

-- A table stays there when another is added.
still_there :
    (t : Table) (m : Str) (tables : List Table)
    → is_some (find_table m tables) ≡ true
    → is_some (find_table m (t ∷ tables)) ≡ true
unfolding find_table first_where
still_there t m tables there = elim (Bool-cases (str_eq t.name m)) [
  | inl here ↦ rw here refl
  | inr other ↦ rw other there
]

column_table : (o : Option Table) (n : Str) → has_column_in o n ≡ true → is_some o ≡ true
column_table none n h = h
column_table (some t) n h = refl

fitting_keys :
    (tables : List Table) (ks : List ForeignKey)
    → all (λ (k : ForeignKey). has_column_in (find_table k.table tables) k.target) ks ≡ true
    → All (λ (k : ForeignKey). is_some (find_table k.table tables) ≡ true) ks
fitting_keys tables [] h = tt
fitting_keys tables (k ∷ ks) h = (
  column_table (find_table k.table tables) k.target (ground arith),
  fitting_keys tables ks (ground arith),
)

module _ (t : Table) (tables : List Table) where
  still_keys :
      (ks : List ForeignKey)
      → All (λ (k : ForeignKey). is_some (find_table k.table tables) ≡ true) ks
      → All (λ (k : ForeignKey). is_some (find_table k.table (t ∷ tables)) ≡ true) ks
  still_keys [] h = tt
  still_keys (k ∷ ks) h = (still_there t k.table tables h.0, still_keys ks h.1)

  still_tables :
      (us : List Table)
      → All
          (λ (u : Table).
            All (λ (k : ForeignKey). is_some (find_table k.table tables) ≡ true) u.foreign_keys)
          us
      → All
          (λ (u : Table).
            All
              (λ (k : ForeignKey). is_some (find_table k.table (t ∷ tables)) ≡ true)
              u.foreign_keys)
          us
  still_tables [] h = tt
  still_tables (u ∷ us) h = (still_keys u.foreign_keys h.0, still_tables us h.1)

  still_indexes :
      (is : List Index)
      → All (λ (i : Index). is_some (find_table i.table tables) ≡ true) is
      → All (λ (i : Index). is_some (find_table i.table (t ∷ tables)) ≡ true) is
  still_indexes [] h = tt
  still_indexes (i ∷ is) h = (still_there t i.table tables h.0, still_indexes is h.1)

-- What CREATE TABLE has done.
pub created_table :
    (t : Table) (s s' : Schema)
    → execute_op (create_table t) s ≡ some s'
    → (is_taken t.name s ≡ false)
      × (table_fits t s ≡ true)
      × (record s { tables = t ∷ s.tables } ≡ s')
unfolding execute_op
created_table t s s' h =
    elim (Bool-cases (any (λ n. is_taken n s) (names_of t) || not (table_fits t s))) [
      | inl bad ↦ absurd (cc (rw (bad, execute_op) at h))
      | inr good ↦ (ground arith, ground arith, cc (rw (good, execute_op) at h))
    ]

pub created_index :
    (i : Index) (s s' : Schema)
    → execute_op (create_index i) s ≡ some s'
    → (is_taken i.name s ≡ false)
      × (index_fits i s ≡ true)
      × (record s { indexes = i ∷ s.indexes } ≡ s')
unfolding execute_op
created_index i s s' h = elim (Bool-cases (is_taken i.name s || not (index_fits i s))) [
  | inl bad ↦ absurd (cc (rw (bad, execute_op) at h))
  | inr good ↦ (ground arith, ground arith, cc (rw (good, execute_op) at h))
]

-- A creation keeps a schema linked.
created_table-IsLinked :
    (t : Table) (s : Schema)
    → table_fits t s ≡ true
    → IsLinked s
    → IsLinked (record s { tables = t ∷ s.tables })
unfolding table_fits
created_table-IsLinked t s fits linked = record {
  keys = (
    still_keys t s.tables t.foreign_keys (fitting_keys s.tables t.foreign_keys (ground arith)),
    still_tables t s.tables s.tables linked.keys,
  );
  indexes = still_indexes t s.tables s.indexes linked.indexes;
}

created_index-IsLinked :
    (i : Index) (s : Schema)
    → index_fits i s ≡ true
    → IsLinked s
    → IsLinked (record s { indexes = i ∷ s.indexes })
unfolding index_fits
created_index-IsLinked i s fits linked = record {
  keys = linked.keys;
  indexes = (ground arith, linked.indexes);
}

pub untrue : false ≡ true → ⊥
untrue h = cc

-- A script of creations is undone by its inverses in reverse order, up to the extension.
pub undo_lem :
    (ops : List Op) (s s' : Schema)
    → all is_creation ops ≡ true
    → IsLinked s
    → execute_ops ops s ≡ some s'
    → execute_ops (undo ops) s' ≡ some (record s { postgis = s'.postgis })
unfolding execute_ops undo
undo_lem [] s s' creations linked h = let same : s ≡ s' = some_inj h in rw same refl
undo_lem (create_postgis ∷ ops) s s' creations linked h =
    undo_lem ops (record s { postgis = true }) s' creations
      (record { keys = linked.keys; indexes = linked.indexes }) h
undo_lem (create_table t ∷ ops) s s' creations linked h =
    elim (Option-cases (execute_op (create_table t) s)) [
      | inl failed ↦ absurd (cc (rw (failed, execute_ops) at h))
      | inr (s1, went) ↦
          let (free, fits, same) = created_table t s s1 went in
          let h1 : execute_ops ops s1 ≡ some s' = rw (went, execute_ops) at h in
          let rest =
            undo_lem ops (record s { tables = t ∷ s.tables }) s' creations
              (created_table-IsLinked t s fits linked)
              (subst (λ x. execute_ops ops x ≡ some s') (sym same) h1) in
          execute_ops-append (undo ops) (drop_table t.name ∷ []) s' _ rest
          ∙ rw (drop_created t s s'.postgis free linked, execute_ops) refl
    ]
undo_lem (create_index i ∷ ops) s s' creations linked h =
    elim (Option-cases (execute_op (create_index i) s)) [
      | inl failed ↦ absurd (cc (rw (failed, execute_ops) at h))
      | inr (s1, went) ↦
          let (free, fits, same) = created_index i s s1 went in
          let h1 : execute_ops ops s1 ≡ some s' = rw (went, execute_ops) at h in
          let rest =
            undo_lem ops (record s { indexes = i ∷ s.indexes }) s' creations
              (created_index-IsLinked i s fits linked)
              (subst (λ x. execute_ops ops x ≡ some s') (sym same) h1) in
          execute_ops-append (undo ops) (drop_index i.name ∷ []) s' _ rest
          ∙ rw (drop_indexed i s s'.postgis free, execute_ops) refl
    ]
undo_lem (drop_index n ∷ ops) s s' creations linked h = absurd (untrue creations)
undo_lem (drop_table n ∷ ops) s s' creations linked h = absurd (untrue creations)
