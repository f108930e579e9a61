-- ===== src/Tables/Schema/Creation.antt =====
-- The order in which a restore creates tables.
use clickhouse_backup.Base.{
  Text, codes, ◌==◌, ◌≡◌, true, false, not, ◌&&◌, ◌||◌, List, [], ◌∷◌, ◌++◌, any, arith, All,
  All-append, has_suffix, Result, ok, err, Result-cases, inl, inr, Bool-cases,
}
use clickhouse_backup.Base.Perms.{All-sort_stable}
use clickhouse_backup.Base.Sorting.{IsLess, IsSorted, sort_stable-IsSorted}
use clickhouse_backup.Names.{unescaped}
use clickhouse_backup.Tables.{patterns_of}
use clickhouse_backup.Tables.Order.{name_less_asymm, name_less_negative_trans}
use clickhouse_backup.Tables.Schema.{
  RestoreTable, WalkedFile, Schemas, add_restore_table, restore_table_less, sort_restore_tables,
  is_distributed, is_view, add_schema, add_named, fits_schema, add_content, add_by_parts,
  add_walked, schema_parts, walk_schemas, no_schemas, parse_schema_pattern,
}

pub restore_table_less-IsLess : IsLess restore_table_less
restore_table_less-IsLess = record {
  asymm = λ a b h. name_less_asymm a.database a.table b.database b.table h;
  negative_trans = λ a b c p q.
      name_less_negative_trans a.database a.table b.database b.table c.database c.table p q;
}

abbrev pub IsRegular : RestoreTable → Type 0
IsRegular t = (is_distributed t.query ≡ false) × (is_view t.query ≡ false)

abbrev pub IsDistributed : RestoreTable → Type 0
IsDistributed t = is_distributed t.query ≡ true

abbrev pub IsView : RestoreTable → Type 0
IsView t = (is_distributed t.query ≡ false) × (is_view t.query ≡ true)

-- Each list holds tables of its own kind.
record IsClassified (s : Schemas) : Type 0 where
  regular : All IsRegular s.regular
  distributed : All IsDistributed s.distributed
  views : All IsView s.views

All-add_restore_table :
    (P : RestoreTable → Type 0) (tables : List RestoreTable) (t : RestoreTable)
    → All P tables
    → P t
    → All P (add_restore_table tables t)
unfolding add_restore_table
All-add_restore_table P tables t h p =
    elim (Bool-cases (any tables (λ x. x.database == t.database && x.table == t.table))) [
      | inl e ↦ rw (e, add_restore_table) h
      | inr e ↦ rw (e, add_restore_table) (All-append P tables (t ∷ []) h (p, tt))
    ]

add_schema-IsClassified :
    (t : RestoreTable) (s : Schemas) → IsClassified s → IsClassified (add_schema t s)
unfolding add_schema
add_schema-IsClassified t s h = elim (Bool-cases (is_distributed t.query)) [
  | inl d ↦
      rw (d, add_schema)
        (record {
          regular = h.regular;
          distributed = All-add_restore_table IsDistributed s.distributed t h.distributed d;
          views = h.views;
        })
  | inr d ↦ elim (Bool-cases (is_view t.query)) [
    | inl v ↦
        rw (d, v, add_schema)
          (record {
            regular = h.regular;
            distributed = h.distributed;
            views = All-add_restore_table IsView s.views t h.views (d, v);
          })
    | inr v ↦
        rw (d, v, add_schema)
          (record {
            regular = All-add_restore_table IsRegular s.regular t h.regular (d, v);
            distributed = h.distributed;
            views = h.views;
          })
  ]
]

abbrev Classifies : Result Schemas → Type 0
Classifies (err e) = Unit
Classifies (ok s) = IsClassified s

read-Classifies :
    (database table path : Text) (content : Result Text) (s : Schemas)
    → IsClassified s
    → Classifies (add_content database table path content s)
read-Classifies database table path (err e) s h = tt
read-Classifies database table path (ok content) s h = add_schema-IsClassified _ s h

add_named-Classifies :
    (patterns : List Text) (file : WalkedFile) (database table : Text) (s : Schemas)
    → IsClassified s
    → Classifies (add_named patterns file database table s)
unfolding add_named
add_named-Classifies patterns file database table s h =
    elim (Bool-cases (fits_schema patterns database table)) [
      | inl e ↦ rw (e, add_named) (read-Classifies database table file.path file.content s h)
      | inr e ↦ rw (e, add_named) h
    ]

add_by_parts-Classifies :
    (patterns : List Text) (file : WalkedFile) (parts : List Text) (s : Schemas)
    → IsClassified s
    → Classifies (add_by_parts patterns file parts s)
add_by_parts-Classifies patterns file (database ∷ table ∷ []) s h =
    add_named-Classifies patterns file (unescaped database) (unescaped table) s h
add_by_parts-Classifies patterns file _ s h = h

add_walked-Classifies :
    (metadata_path : Text) (patterns : List Text) (file : WalkedFile) (s : Schemas)
    → IsClassified s
    → Classifies (add_walked metadata_path patterns file s)
unfolding add_walked
add_walked-Classifies metadata_path patterns file s h =
    elim (Bool-cases (not (has_suffix file.path (codes ".sql")) || not file.is_regular)) [
      | inl e ↦ rw (e, add_walked) h
      | inr e ↦
          rw (e, add_walked)
            (add_by_parts-Classifies patterns file (schema_parts metadata_path file.path) s h)
    ]

walk_schemas-Classifies :
    (metadata_path : Text) (patterns : List Text) (files : List WalkedFile) (s : Schemas)
    → IsClassified s
    → Classifies (walk_schemas metadata_path patterns files s)
unfolding walk_schemas
walk_schemas-Classifies metadata_path patterns [] s h = h
walk_schemas-Classifies metadata_path patterns (file ∷ files) s h =
    let first = add_walked-Classifies metadata_path patterns file s h in
    elim (Result-cases (add_walked metadata_path patterns file s)) [
      | inr (e, failed) ↦ rw (failed, walk_schemas) tt
      | inl (s', fine) ↦
          rw (fine, walk_schemas)
            (walk_schemas-Classifies metadata_path patterns files s' (rw fine at first))
    ]

-- The tables of a successful `parseSchemaPattern` are, first, those that are neither distributed
-- nor views, then the distributed ones, then the views, and each group is in the order of names.
pub parse_schema_pattern_order :
    (metadata_path table_pattern : Text) (files : List WalkedFile) (tables : List RestoreTable)
    → parse_schema_pattern metadata_path table_pattern files ≡ ok tables
    → (regular distributed views : List RestoreTable) × (tables ≡ regular ++ distributed ++ views)
      × All IsRegular regular
      × All IsDistributed distributed
      × All IsView views
      × IsSorted restore_table_less regular
      × IsSorted restore_table_less distributed
      × IsSorted restore_table_less views
unfolding parse_schema_pattern sort_restore_tables
parse_schema_pattern_order metadata_path table_pattern files tables h =
    let walked = walk_schemas metadata_path (patterns_of table_pattern) files no_schemas in
    let classified =
      walk_schemas-Classifies metadata_path (patterns_of table_pattern) files no_schemas
        (record { regular = tt; distributed = tt; views = tt }) in
    elim (Result-cases walked) [
      | inr (e, failed) ↦ absurd (ground arith)
      | inl (s, fine) ↦
          let c : IsClassified s = rw fine at classified in
          let sorted = sort_stable-IsSorted restore_table_less restore_table_less-IsLess in
          (
            sort_restore_tables s.regular,
            sort_restore_tables s.distributed,
            sort_restore_tables s.views,
            ground arith,
            All-sort_stable IsRegular restore_table_less s.regular c.regular,
            All-sort_stable IsDistributed restore_table_less s.distributed c.distributed,
            All-sort_stable IsView restore_table_less s.views c.views,
            sorted s.regular,
            sorted s.distributed,
            sorted s.views,
          )
    ]
