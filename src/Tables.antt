-- ===== src/Tables.antt =====
-- Tables of ClickHouse, of a backup and of a schema: the types and `Sort`s of
-- pkg/chbackup/clickhouse.go, and the choice of tables by pattern of pkg/chbackup/backup.go.
pub mod Schema
pub mod Choice
pub mod Order
use clickhouse_backup.Base.{
  Text, codes, ◌==◌, Bool, true, false, ◌&&◌, ◌||◌, List, [], ◌∷◌, ◌++◌, map, any, split, text_ltb,
  if◌then◌else◌,
}
use clickhouse_backup.Base.Match.{matched}
use clickhouse_backup.Base.Sorting.{sort_stable}

pub record Table : Type 0 where
  pub database : Text
  pub name : Text
  pub skip : Bool

pub record BackupPartition : Type 0 where
  pub name : Text
  pub path : Text

pub record BackupTable : Type 0 where
  pub database : Text
  pub name : Text
  pub partitions : List BackupPartition

-- `fmt.Sprintf("%s.%s", database, name)`
abbrev pub full_name : Text → Text → Text
full_name database name = database ++ (b'.' ∷ name)

-- The order of both `Sort`s, on a database and a name.
abbrev pub name_less : Text → Text → Text → Text → Bool
name_less database name database' name' =
    text_ltb database database' || (database == database' && text_ltb name name')

abbrev pub same_table : Table → Table → Bool
same_table t table = t.database == table.database && t.name == table.name

abbrev pub same_backup_table : BackupTable → BackupTable → Bool
same_backup_table t table = t.database == table.database && t.name == table.name

unfoldable pub add_table : List Table → Table → List Table
add_table tables table =
    if any tables (λ t. same_table t table) then tables else tables ++ (table ∷ [])

unfoldable pub add_backup_table : List BackupTable → BackupTable → List BackupTable
add_backup_table tables table =
    if any tables (λ t. same_backup_table t table) then tables else tables ++ (table ∷ [])

abbrev pub backup_table_less : BackupTable → BackupTable → Bool
backup_table_less a b = name_less a.database a.name b.database b.name

-- `BackupTables.Sort`. No two tables have one name, so `sort.Slice` has one result.
unfoldable pub sort_backup_tables : List BackupTable → List BackupTable
sort_backup_tables = sort_stable backup_table_less

-- The inner loop of `parseTablePatternForFreeze`.
unfoldable pub add_matching : Table → List Text → List Table → List Table
add_matching t [] result = result
add_matching t (pattern ∷ patterns) result =
    add_matching t patterns
      (if matched pattern (full_name t.database t.name) then add_table result t else result)

-- And its outer loop.
unfoldable pub choose_tables : List Table → List Text → List Table → List Table
choose_tables [] patterns result = result
choose_tables (t ∷ tables) patterns result =
    choose_tables tables patterns (add_matching t patterns result)

unfoldable pub parse_table_pattern_for_freeze : List Table → Text → List Table
parse_table_pattern_for_freeze tables [] = tables
parse_table_pattern_for_freeze tables (c ∷ pattern) =
    choose_tables tables (split b',' (c ∷ pattern)) []

-- What an empty pattern stands for.
abbrev pub patterns_of : Text → List Text
patterns_of [] = codes "*" ∷ []
patterns_of (c ∷ pattern) = split b',' (c ∷ pattern)

unfoldable pub add_matching_backup : BackupTable → List Text → List BackupTable → List BackupTable
add_matching_backup t [] result = result
add_matching_backup t (pattern ∷ patterns) result =
    add_matching_backup t patterns
      (if matched pattern (full_name t.database t.name) then add_backup_table result t else result)

unfoldable pub choose_backup_tables :
    List BackupTable → List Text → List BackupTable → List BackupTable
choose_backup_tables [] patterns result = result
choose_backup_tables (t ∷ tables) patterns result =
    choose_backup_tables tables patterns (add_matching_backup t patterns result)

-- The tables come from a map, in the order in which `range` visits it.
unfoldable pub parse_table_pattern_for_restore_data : List BackupTable → Text → List BackupTable
parse_table_pattern_for_restore_data tables pattern =
    sort_backup_tables (choose_backup_tables tables (patterns_of pattern) [])

-- Whether a filter of `skip_tables` matches: the loops of `GetTables` and of `CreateBackup`.
unfoldable pub is_skipped : List Text → Text → Text → Bool
is_skipped filters database name = any filters (λ filter. matched filter (full_name database name))

-- `GetTables`, from the rows of its query.
unfoldable pub mark_skipped : List Text → List Table → List Table
mark_skipped filters =
    map (λ t. if is_skipped filters t.database t.name then record t { skip = true } else t)

-- `RestoreData`: the names of the tables that the server lacks.
unfoldable pub missing_tables : List BackupTable → List Table → List Text
missing_tables [] ch_tables = []
missing_tables (r ∷ restore_tables) ch_tables =
    let rest = missing_tables restore_tables ch_tables in
    if any ch_tables (λ t. r.database == t.database && r.name == t.name)
    then rest
    else (codes "'" ++ full_name r.database r.name ++ codes "'") ∷ rest
