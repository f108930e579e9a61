-- ===== src/Operations.antt =====
-- The operations of pkg/chbackup/backup.go on this machine alone: `CreateBackup`, `Clean`, `PrintTables`
-- and `getTables`.
pub mod Printing
pub mod Transfer
pub mod Creation
pub mod Cleaning
pub mod Exchange
use clickhouse_backup.Base.{
  Text, codes, Bool, true, false, not, Option, none, some, List, [], ◌∷◌, ◌++◌, map, trim,
  trim_prefix, Error, error_text, errorf, unknown_clickhouse_data_path, is_not_exist, Result, ok,
  err, if◌then◌else◌,
}
use clickhouse_backup.Base.Paths.{path_join, is_empty}
use clickhouse_backup.Base.Steps.{◌then_do◌, explain, for_each}
use clickhouse_backup.Config.{Config}
use clickhouse_backup.Local.{
  Machine, FileInfo, backup_path, get_data_path, unless_panic, remove_old_backups_local,
}
use clickhouse_backup.Files.{Disk, clean_dir, copy_file, move_shadow}
use clickhouse_backup.Freeze.{freeze}
use clickhouse_backup.Tables.{Table, full_name, is_skipped, mark_skipped}
use clickhouse_backup.Tables.Schema.{RestoreTable, parse_schema_pattern}
use clickhouse_backup.Clickhouse.{Connection, connect, tables_query}
use clickhouse_backup.Clickhouse.Interfaces.{walk_schema, freezer_of}
use clickhouse_backup.Streams.{Outcome, returned, panics, unless_err, then_out, or_panic}

-- A name that is not given is the text of the present time.
abbrev pub or_new : Text → Text → Text
or_new new_name [] = new_name
or_new new_name (c ∷ name) = c ∷ name

abbrev pub taken_error : Text → Error
taken_error path = errorf (codes "can't create backup '" ++ path ++ codes "' already exists")

-- Why a directory may not be used for a new backup, from what `os.Stat` says.
abbrev pub taken : Text → Result FileInfo → Option Error
taken path (ok info) = some (taken_error path)
taken path (err e) = if is_not_exist e then none else some (taken_error path)

abbrev pub metadata_of : Text → Text
metadata_of path = path_join (path ∷ codes "metadata" ∷ [])

abbrev pub shadow_below : Text → Text
shadow_below path = path_join (path ∷ codes "shadow" ∷ [])

module _ (L : Machine) (D : Disk L) where
  -- A schema file is copied to the same place below the backup's metadata.
  abbrev pub copy_schema : Config → Text → Text → RestoreTable → L.State → L.State × Option Error
  copy_schema config metadata backup schema s =
      let relative = trim b'/' (trim_prefix schema.path metadata) in
      let target = path_join (backup ∷ codes "metadata" ∷ relative ∷ []) in
      if is_skipped config.click_house.skip_tables schema.database schema.table
      then (s, none)
      else explain (codes "can't backup metadata") (copy_file L D schema.path target s)

  abbrev cleaned : Text → L.State → L.State × Option Error
  cleaned path s = explain (codes "can't clean '" ++ path ++ codes "'") (clean_dir L path s)

  abbrev pub clean_found : Text → Result FileInfo → L.State → L.State × Option Error
  clean_found path (ok info) s = cleaned path s
  clean_found path (err e) s = if is_not_exist e then (s, none) else cleaned path s

  abbrev pub clean_below : Text → L.State → L.State × Option Error
  clean_below data_path s =
      let path = shadow_below data_path in
      if is_empty data_path
      then (s, some unknown_clickhouse_data_path)
      else clean_found path (L.stat s path) s

  -- `Clean`; the outer `none` is a panic.
  unfoldable pub clean : Config → L.State → Option (L.State × Option Error)
  clean config s =
      unless_panic (get_data_path L config s) none (λ data_path. some (clean_below data_path s))

module _ (L : Machine) (D : Disk L) (Q : Connection L)
    (data_path : Config → L.State → Result Text) where
  -- What follows the freeze.
  abbrev pub after_freeze : Config → Text → Text → Text → L.State → Outcome L.State
  after_freeze config path backup pattern s =
      unless_err
        (parse_schema_pattern (metadata_of path) pattern
          (walk_schema L D Q data_path (metadata_of path) s))
        s
        (λ schemas.
          then_out
            (for_each (copy_schema L D config (metadata_of path) backup) schemas s
              then_do D.mkdir_all (shadow_below backup)
              then_do move_shadow L D (shadow_below path) (shadow_below backup))
            (λ s'. or_panic (remove_old_backups_local L config s')))

  abbrev pub create_at : Config → Text → Text → Text → L.State → Outcome L.State
  create_at config path backup pattern s =
      then_out
        (explain (codes "can't create backup") (D.mkdir_all backup s)
          then_do freeze (freezer_of L D Q data_path config) config pattern)
        (after_freeze config path backup pattern)

  abbrev pub create_unless_taken :
      Config → Text → Text → Text → Option Error → L.State → Outcome L.State
  create_unless_taken config path backup pattern (some e) s = returned s (some e)
  create_unless_taken config path backup pattern none s = create_at config path backup pattern s

  abbrev pub create_below : Config → Text → Text → Text → L.State → Outcome L.State
  create_below config [] name pattern s = returned s (some unknown_clickhouse_data_path)
  create_below config (c ∷ path) name pattern s =
      let backup = backup_path (c ∷ path) name in
      create_unless_taken config (c ∷ path) backup pattern (taken backup (L.stat s backup)) s

  -- `CreateBackup`; `new_name` is what `NewBackupName` returns.
  unfoldable pub create_backup : Config → Text → Text → Text → L.State → Outcome L.State
  create_backup config new_name backup_name pattern s =
      unless_panic (get_data_path L config s) panics
        (λ path. create_below config path (or_new new_name backup_name) pattern s)

  abbrev marked : Config → Result (List Table) → Result (List Table)
  marked config (err e) = err (errorf (codes "can't get tables: " ++ error_text e))
  marked config (ok rows) = ok (mark_skipped config.click_house.skip_tables rows)

  -- `getTables`
  unfoldable pub get_tables : Config → L.State → Result (List Table)
  get_tables config s = elim (connect L Q config s) [
    | some e ↦ err (errorf (codes "can't connect to clickhouse: " ++ error_text e))
    | none ↦ marked config (Q.select_tables tables_query s)
  ]

  abbrev pub table_line : Table → Text
  table_line table =
      full_name table.database table.name ++ (if table.skip then codes "\t(ignored)" else [])

  -- `PrintTables`: its lines.
  unfoldable pub print_tables : Config → L.State → Result (List Text)
  print_tables config s = elim (get_tables config s) [
    | err e ↦ err e
    | ok tables ↦ ok (map table_line tables)
  ]
