-- ===== src/Clickhouse.antt =====
-- The client of ClickHouse of pkg/chbackup/clickhouse.go: what it asks the database, how it freezes
-- tables, and how it puts the parts of a backup back, over any file system and any connection.
pub mod Saved
pub mod Freezing
pub mod Grouping
pub mod Interfaces
use clickhouse_backup.Base.{
  ℕ, Text, codes, ◌==◌, Bool, true, false, not, ◌||◌, Option, none, some, List, [], ◌∷◌, ◌++◌,
  length, ◌-◌, take, ltb, ltb_ℤ, ℤ, pos, atoi, split, trim, trim_prefix, Error, error_text, errorf,
  is_not_exist, Result, ok, err, if◌then◌else◌,
}
use clickhouse_backup.Base.Paths.{slash, path_join, is_empty}
use clickhouse_backup.Base.Steps.{◌then_do◌, for_each, ignoring, explain}
use clickhouse_backup.Config.{Config, ClickHouseConfig}
use clickhouse_backup.Config.Durations.{parse_duration}
use clickhouse_backup.Names.{table_path_encode}
use clickhouse_backup.Local.{Machine, FileInfo}
use clickhouse_backup.Files.{Disk, Kind, Walked, directory, regular, special}
use clickhouse_backup.Tables.{Table, BackupTable, BackupPartition, full_name}

-- The packages `sqlx` and `clickhouse-go`: `ping` is `sqlx.Open` and `Ping` with what `Connect` makes of
-- the configuration, `select` gives the values of a query of one column, `select_tables` those of two.
pub record Connection (L : Machine) : Type 0 where
  pub ping : ClickHouseConfig → L.State → Option Error
  pub exec : Text → L.State → L.State × Option Error
  pub select : Text → L.State → Result (List Text)
  pub select_tables : Text → L.State → Result (List Table)

abbrev pub in_quotes : Text → Text
in_quotes name = codes "'" ++ name ++ codes "'"

abbrev pub table_in_quotes : Table → Text
table_in_quotes table = in_quotes (full_name table.database table.name)

-- A table's name for a query.
abbrev pub in_backquotes : Text → Text → Text
in_backquotes database name = codes "`" ++ database ++ codes "`.`" ++ name ++ codes "`"

abbrev pub partitions_query : Table → Text
partitions_query table =
    codes "SELECT DISTINCT partition_id FROM `system`.`parts` WHERE database="
    ++ in_quotes table.database
    ++ codes " AND table="
    ++ in_quotes table.name

abbrev pub freeze_query : Table → Text
freeze_query table =
    codes "ALTER TABLE " ++ in_backquotes table.database table.name ++ codes " FREEZE;"

-- The one partition of a table without a partition key is `all`.
abbrev pub freeze_partition_query : Table → Text → Text
freeze_partition_query table id =
    codes "ALTER TABLE "
    ++ in_backquotes table.database table.name
    ++ (if id == codes "all"
        then codes " FREEZE PARTITION tuple();"
        else codes " FREEZE PARTITION ID '" ++ id ++ codes "';")

abbrev pub version_query : Text
version_query = codes "SELECT value FROM `system`.`build_options` where name='VERSION_INTEGER'"

abbrev pub data_path_query : Text
data_path_query =
    codes "SELECT metadata_path FROM system.tables WHERE database == 'system' LIMIT 1;"

abbrev pub tables_query : Text
tables_query =
    codes
      "SELECT database, name FROM system.tables WHERE is_temporary = 0 AND engine LIKE '%MergeTree';"

abbrev pub attach_query : BackupTable → BackupPartition → Text
attach_query table partition =
    codes "ALTER TABLE "
    ++ in_backquotes table.database table.name
    ++ codes " ATTACH PART "
    ++ in_quotes partition.name

-- The path of the data from that of the metadata, which is three elements longer; `none` is a panic.
unfoldable pub data_path_of : List Text → Option Text
data_path_of [] = none
data_path_of (metadata_path ∷ rows) =
    let parts = split b'/' metadata_path in
    if ltb (length parts) 3
    then none
    else some (path_join (slash ∷ path_join (take (length parts - 3) parts) ∷ []))

-- The `c` of the error's text is a Cyrillic letter.
abbrev version_error : Error → Error
version_error e =
    errorf (codes "can't get " ++ (209 ∷ 129 ∷ codes "lickHouse version: ") ++ error_text e)

-- The version, from the answer to the query.
abbrev version_of : Result (List Text) → Result ℤ
version_of (err e) = err (version_error e)
version_of (ok []) = ok (pos 0)
version_of (ok (value ∷ values)) = elim (atoi value) [
  | some n ↦ ok n
  | none ↦ err (errorf (codes "strconv.Atoi: parsing \"" ++ value ++ codes "\""))
]

module _ (L : Machine) (Q : Connection L) where
  unfoldable pub connect : Config → L.State → Option Error
  connect config s = elim (parse_duration config.click_house.timeout) [
    | err e ↦ some e
    | ok timeout ↦ Q.ping config.click_house s
  ]

  -- `GetDataPath`; `none` is a panic. On an error its path is not used.
  unfoldable pub ask_data_path : Config → L.State → Option (Result Text)
  ask_data_path config s =
      if is_empty config.click_house.data_path
      then elim (Q.select data_path_query s) [
        | err e ↦ some (err e)
        | ok rows ↦ elim (data_path_of rows) [ none ↦ none | some path ↦ some (ok path) ]
      ]
      else some (ok config.click_house.data_path)

  unfoldable pub get_version : L.State → Result ℤ
  get_version s = version_of (Q.select version_query s)

  abbrev freeze_partition : Table → Text → L.State → L.State × Option Error
  freeze_partition table id s =
      explain
        (codes "can't freeze partition " ++ in_quotes id ++ codes " on " ++ table_in_quotes table)
        (Q.exec (freeze_partition_query table id) s)

  abbrev freeze_partitions : Table → Result (List Text) → L.State → L.State × Option Error
  freeze_partitions table (err e) s = (
    s,
    some (
        errorf (
          codes "can't get partitions for "
          ++ table_in_quotes table
          ++ codes ": "
          ++ error_text e)),
  )
  freeze_partitions table (ok ids) s = for_each (freeze_partition table) ids s

  unfoldable pub freeze_table_old_way : Table → L.State → L.State × Option Error
  freeze_table_old_way table s = freeze_partitions table (Q.select (partitions_query table) s) s

  -- ClickHouse freezes a whole table from version 19.1.5 on.
  abbrev pub freezes_by_part : Config → ℤ → Bool
  freezes_by_part config version = ltb_ℤ version (pos 19001005) || config.click_house.freeze_by_part

  abbrev freeze_by_version : Config → Table → Result ℤ → L.State → L.State × Option Error
  freeze_by_version config table (err e) s = (s, some e)
  freeze_by_version config table (ok version) s =
      if freezes_by_part config version
      then freeze_table_old_way table s
      else explain (codes "can't freeze " ++ table_in_quotes table) (Q.exec (freeze_query table) s)

  unfoldable pub freeze_table : Config → Table → L.State → L.State × Option Error
  freeze_table config table s = freeze_by_version config table (get_version s) s

  unfoldable pub attach_partitions : BackupTable → L.State → L.State × Option Error
  attach_partitions table s =
      for_each (λ partition. Q.exec (attach_query table partition)) table.partitions s
