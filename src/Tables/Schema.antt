-- ===== src/Tables/Schema.antt =====
-- `parseSchemaPattern`: the tables that a backup's metadata creates, in the order of their creation.
pub mod Creation
use clickhouse_backup.Base.{
  Text, codes, ◌==◌, Bool, true, false, not, ◌&&◌, ◌||◌, List, [], ◌∷◌, ◌++◌, any, split, trim,
  trim_prefix, trim_suffix, has_suffix, has_prefix, contains, replace_first, Result, ok, err,
  if◌then◌else◌,
}
use clickhouse_backup.Base.Match.{matched}
use clickhouse_backup.Base.Sorting.{sort_stable}
use clickhouse_backup.Names.{unescaped}
use clickhouse_backup.Tables.{full_name, name_less, patterns_of}

pub record RestoreTable : Type 0 where
  pub database : Text
  pub table : Text
  pub query : Text
  pub path : Text

-- What `filepath.Walk` shows of a file, and what reading it gives.
pub record WalkedFile : Type 0 where
  pub path : Text
  pub is_regular : Bool
  pub content : Result Text

-- The three lists that the walk fills.
pub record Schemas : Type 0 where
  pub regular : List RestoreTable
  pub distributed : List RestoreTable
  pub views : List RestoreTable

abbrev pub same_restore_table : RestoreTable → RestoreTable → Bool
same_restore_table t table = t.database == table.database && t.table == table.table

unfoldable pub add_restore_table : List RestoreTable → RestoreTable → List RestoreTable
add_restore_table tables table =
    if any tables (λ t. same_restore_table t table) then tables else tables ++ (table ∷ [])

abbrev pub restore_table_less : RestoreTable → RestoreTable → Bool
restore_table_less a b = name_less a.database a.table b.database b.table

-- `RestoreTables.Sort`
unfoldable pub sort_restore_tables : List RestoreTable → List RestoreTable
sort_restore_tables = sort_stable restore_table_less

abbrev pub is_distributed : Text → Bool
is_distributed query = contains query (codes "ENGINE = Distributed")

abbrev pub is_view : Text → Bool
is_view query =
    has_prefix query (codes "CREATE VIEW") || has_prefix query (codes "CREATE MATERIALIZED VIEW")

-- The query of a metadata file: its first `ATTACH` becomes `CREATE`.
abbrev pub create_query : Text → Text
create_query content = replace_first content (codes "ATTACH") (codes "CREATE")

unfoldable pub add_schema : RestoreTable → Schemas → Schemas
add_schema t s =
    if is_distributed t.query
    then record s { distributed = add_restore_table s.distributed t }
    else if is_view t.query
    then record s { views = add_restore_table s.views t }
    else record s { regular = add_restore_table s.regular t }

-- The elements of a file's name below the metadata directory, without `.sql`.
unfoldable pub schema_parts : Text → Text → List Text
schema_parts metadata_path path =
    split b'/' (trim b'/' (trim_prefix (trim_suffix path (codes ".sql")) metadata_path))

abbrev pub fits_schema : List Text → Text → Text → Bool
fits_schema patterns database table = any patterns (λ p. matched p (full_name database table))

abbrev pub add_content : Text → Text → Text → Result Text → Schemas → Result Schemas
add_content database table path (err e) s = err e
add_content database table path (ok content) s = ok (
    add_schema
      (record { database = database; table = table; query = create_query content; path = path }) s)

-- A file whose name has two elements is read if a pattern matches.
unfoldable pub add_named : List Text → WalkedFile → Text → Text → Schemas → Result Schemas
add_named patterns file database table s =
    if fits_schema patterns database table
    then add_content database table file.path file.content s
    else ok s

abbrev pub add_by_parts : List Text → WalkedFile → List Text → Schemas → Result Schemas
add_by_parts patterns file (database ∷ table ∷ []) s =
    add_named patterns file (unescaped database) (unescaped table) s
add_by_parts patterns file _ s = ok s

-- The callback of the walk.
unfoldable pub add_walked : Text → List Text → WalkedFile → Schemas → Result Schemas
add_walked metadata_path patterns file s =
    if not (has_suffix file.path (codes ".sql")) || not file.is_regular
    then ok s
    else add_by_parts patterns file (schema_parts metadata_path file.path) s

unfoldable pub walk_schemas : Text → List Text → List WalkedFile → Schemas → Result Schemas
walk_schemas metadata_path patterns [] s = ok s
walk_schemas metadata_path patterns (file ∷ files) s =
    elim (add_walked metadata_path patterns file s) [
      | err e ↦ err e
      | ok s' ↦ walk_schemas metadata_path patterns files s'
    ]

abbrev pub no_schemas : Schemas
no_schemas = record { regular = []; distributed = []; views = [] }

abbrev pub in_order : Schemas → List RestoreTable
in_order s =
    sort_restore_tables s.regular
    ++ sort_restore_tables s.distributed
    ++ sort_restore_tables s.views

unfoldable pub parse_schema_pattern : Text → Text → List WalkedFile → Result (List RestoreTable)
parse_schema_pattern metadata_path table_pattern files =
    elim (walk_schemas metadata_path (patterns_of table_pattern) files no_schemas) [
      | err e ↦ err e
      | ok s ↦ ok (in_order s)
    ]
