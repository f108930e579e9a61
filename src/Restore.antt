-- ===== src/Restore.antt =====
-- `Restore`, `restoreSchema` and `RestoreData` of pkg/chbackup/backup.go, with `CreateDatabase` and
-- `CreateTable` of pkg/chbackup/clickhouse.go, over any database.
pub mod Flow
use clickhouse_backup.Base.{
  Text, codes, Bool, true, false, not, ◌||◌, Option, none, some, List, [], ◌∷◌, ◌++◌, join, Error,
  error_text, errorf, unknown_clickhouse_data_path, Result, ok, err, if◌then◌else◌,
}
use clickhouse_backup.Base.Paths.{path_join, is_empty}
use clickhouse_backup.Base.Steps.{◌then_do◌, explain}
use clickhouse_backup.Config.{Config}
use clickhouse_backup.Operations.Printing.{print_local_backups}
use clickhouse_backup.Local.{Machine, FileInfo, backup_word, get_data_path, unless_panic}
use clickhouse_backup.Tables.{
  Table, BackupTable, full_name, parse_table_pattern_for_restore_data, mark_skipped, missing_tables,
}
use clickhouse_backup.Tables.Schema.{RestoreTable, WalkedFile, parse_schema_pattern}

-- The database beside the machine. `rows` answers the query of `GetTables`, `backup_tables` is
-- `GetBackupTables` with its map in the order of `range`.
pub record Database (L : Machine) : Type 0 where
  pub connect : Config → L.State → Option Error
  pub exec : Text → L.State → L.State × Option Error
  pub walk_files : Text → L.State → List WalkedFile
  pub backup_tables : Text → L.State → Result (List BackupTable)
  pub rows : L.State → Result (List Table)
  pub copy_data : BackupTable → L.State → L.State × Option Error
  pub attach_partitions : BackupTable → L.State → L.State × Option Error

-- A name between backquotes.
abbrev pub quoted : Text → Text
quoted name = codes "`" ++ name ++ codes "`"

abbrev pub database_query : Text → Text
database_query database = codes "CREATE DATABASE IF NOT EXISTS " ++ quoted database

abbrev pub use_query : Text → Text
use_query database = codes "USE " ++ quoted database

abbrev pub drop_query : RestoreTable → Text
drop_query t = codes "DROP TABLE IF EXISTS " ++ quoted t.database ++ codes "." ++ quoted t.table

abbrev connect_error : Error → Error
connect_error e = errorf (codes "can't connect to clickhouse: " ++ error_text e)

module _ (L : Machine) (D : Database L) where
  unfoldable pub create_table : Bool → RestoreTable → L.State → L.State × Option Error
  create_table drop t s =
      D.exec (use_query t.database) s
      then_do (λ s₁. if drop then D.exec (drop_query t) s₁ else (s₁, none))
      then_do D.exec t.query

  unfoldable pub create_all : Bool → List RestoreTable → L.State → L.State × Option Error
  create_all drop [] s = (s, none)
  create_all drop (t ∷ tables) s =
      explain (codes "can't create database '" ++ t.database ++ codes "'")
        (D.exec (database_query t.database) s)
      then_do (λ s₁.
          explain (codes "can't create table '" ++ full_name t.database t.table ++ codes "'")
            (create_table drop t s₁))
      then_do create_all drop tables

  abbrev create_found :
      Config → Text → Text → Bool → List RestoreTable → L.State → L.State × Option Error
  create_found config name pattern drop [] s =
      (s, some (errorf (codes "no have found schemas by " ++ pattern ++ codes " in " ++ name)))
  create_found config name pattern drop (t ∷ tables) s = elim (D.connect config s) [
    | some e ↦ (s, some (connect_error e))
    | none ↦ create_all drop (t ∷ tables) s
  ]

  -- The directory is there: its tables, or the error of reading them.
  abbrev read_schema :
      Config → Text → Text → Text → Bool → FileInfo → L.State → L.State × Option Error
  read_schema config name path pattern drop info s =
      if not info.is_dir
      then (s, some (errorf (path ++ codes " is not a dir")))
      else elim (parse_schema_pattern path pattern (D.walk_files path s)) [
        | err e ↦ (s, some e)
        | ok tables ↦ create_found config name pattern drop tables s
      ]

  abbrev pub schema_below : Config → Text → Text → Bool → L.State → Text → L.State × Option Error
  schema_below config name pattern drop s data_path =
      let path = path_join (data_path ∷ backup_word ∷ name ∷ codes "metadata" ∷ []) in
      if is_empty data_path then (s, some unknown_clickhouse_data_path) else elim (L.stat s path) [
        | err e ↦ (s, some e)
        | ok info ↦ read_schema config name path pattern drop info s
      ]

  -- Without a name the local backups are printed. Here and below the outer `none` is a panic.
  abbrev unnamed : Config → L.State → Option (L.State × Option Error)
  unnamed config s =
      unless_panic (print_local_backups L config (codes "all") s) none
        (λ lines. some (s, some (errorf (codes "select backup for restore"))))

  unfoldable pub restore_schema :
      Config → Text → Text → Bool → L.State → Option (L.State × Option Error)
  restore_schema config name pattern drop s =
      if is_empty name
      then unnamed config s
      else unless_panic (get_data_path L config s) none
          (λ path. some (schema_below config name pattern drop s path))

  unfoldable pub copy_all : List BackupTable → L.State → L.State × Option Error
  copy_all [] s = (s, none)
  copy_all (t ∷ tables) s =
      explain (codes "can't restore '" ++ full_name t.database t.name ++ codes "'")
        (D.copy_data t s)
      then_do (λ s₁.
          explain
            (codes "can't attach partitions for table '"
              ++ full_name t.database t.name
              ++ codes "'")
            (D.attach_partitions t s₁))
      then_do copy_all tables

  abbrev pub missing_error : List Text → Error
  missing_error missing = errorf (
      join (codes ", ") missing
      ++ codes " is not created. Restore schema first or create missing tables manually")

  -- Nothing is copied unless all tables are there.
  unfoldable pub copy_if_created : List BackupTable → List Text → L.State → L.State × Option Error
  copy_if_created [] missing s = (s, some (errorf (codes "backup doesn't have tables to restore")))
  copy_if_created (t ∷ tables) [] s = copy_all (t ∷ tables) s
  copy_if_created (t ∷ tables) (m ∷ missing) s = (s, some (missing_error (m ∷ missing)))

  abbrev copy_chosen : Config → Text → List BackupTable → L.State → L.State × Option Error
  copy_chosen config pattern saved s = elim (D.rows s) [
    | err e ↦ (s, some e)
    | ok rows ↦
        let tables = parse_table_pattern_for_restore_data saved pattern in
        copy_if_created tables
          (missing_tables tables (mark_skipped config.click_house.skip_tables rows)) s
  ]

  abbrev pub data_below : Config → Text → Text → L.State → Text → L.State × Option Error
  data_below config name pattern s data_path =
      if is_empty data_path
      then (s, some unknown_clickhouse_data_path)
      else elim (D.connect config s) [
        | some e ↦ (s, some (connect_error e))
        | none ↦ elim (D.backup_tables name s) [
          | err e ↦ (s, some e)
          | ok saved ↦ copy_chosen config pattern saved s
        ]
      ]

  unfoldable pub restore_data : Config → Text → Text → L.State → Option (L.State × Option Error)
  restore_data config name pattern s =
      if is_empty name
      then unnamed config s
      else unless_panic (get_data_path L config s) none
          (λ path. some (data_below config name pattern s path))

  abbrev same_flag : Bool → Bool → Bool
  same_flag true b = b
  same_flag false b = not b

  -- `if err != nil { return err }`
  abbrev pub then_next :
      Option (L.State × Option Error)
      → (L.State → Option (L.State × Option Error))
      → Option (L.State × Option Error)
  then_next none next = none
  then_next (some (s, some e)) next = some (s, some e)
  then_next (some (s, none)) next = next s

  unfoldable pub restore :
      Config → Text → Text → Bool → Bool → Bool → L.State → Option (L.State × Option Error)
  restore config name pattern schema_only data_only drop s =
      let both = same_flag schema_only data_only in
      then_next
        (if schema_only || both then restore_schema config name pattern drop s else some (s, none))
        (λ s₁. if data_only || both then restore_data config name pattern s₁ else some (s₁, none))
