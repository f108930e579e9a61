-- ===== src/Clickhouse/Saved.antt =====
-- The parts of a backup: `GetBackupTables`, `Chown` and `CopyData` of pkg/chbackup/clickhouse.go.
use clickhouse_backup.Base.{
  ℕ, Text, codes, Bool, true, false, Option, none, some, List, [], ◌∷◌, ◌++◌, length, get_elem?,
  nat_beq, split, trim, trim_prefix, Error, error_text, errorf, is_not_exist, Result, ok, err,
  if◌then◌else◌,
}
use clickhouse_backup.Base.Maps.{lookup, map_set}
use clickhouse_backup.Base.Paths.{path_join}
use clickhouse_backup.Base.Steps.{◌then_do◌, for_each, ignoring}
use clickhouse_backup.Config.{Config}
use clickhouse_backup.Names.{table_path_encode, unescaped}
use clickhouse_backup.Local.{Machine, FileInfo}
use clickhouse_backup.Files.{
  Disk, Kind, Walked, directory, regular, special, is_directory, is_clickhouse_shadow,
}
use clickhouse_backup.Tables.{BackupTable, BackupPartition, full_name}

-- Where the names stand in the path of a part: below the directory of a freeze in an old backup.
pub record Places : Type 0 where
  pub database : ℕ
  pub table : ℕ
  pub part : ℕ
  pub total : ℕ

unfoldable pub places : Bool → Places
places false = record { database = 0; table = 1; part = 2; total = 3 }
places true = record { database = 2; table = 3; part = 4; total = 5 }

abbrev pub part_at : List Text → ℕ → Text
part_at parts i = elim (get_elem? parts i) [ none ↦ [] | some part ↦ part ]

abbrev pub Saved : Type 0
Saved = List (Text × BackupTable)

abbrev pub partitions_of : Option BackupTable → List BackupPartition
partitions_of none = []
partitions_of (some t) = t.partitions

-- The map holds a table already, or it gets one with this partition.
abbrev pub with_partition : Text → Text → BackupPartition → Option BackupTable → BackupTable
with_partition database name partition none = record {
  database = database;
  name = name;
  partitions = partition ∷ [];
}
with_partition database name partition (some t) = record t {
  partitions = t.partitions ++ (partition ∷ []);
}

abbrev pub saved_name : Places → List Text → Text
saved_name P parts =
    full_name (unescaped (part_at parts P.database)) (unescaped (part_at parts P.table))

unfoldable pub add_part : Places → Text → List Text → Saved → Saved
add_part P path parts saved =
    let key = saved_name P parts in
    map_set key
      (with_partition (unescaped (part_at parts P.database)) (unescaped (part_at parts P.table))
        (record { name = part_at parts P.part; path = path }) (lookup key saved))
      saved

abbrev pub parts_below : Text → Text → List Text
parts_below shadow_path path = split b'/' (trim b'/' (trim_prefix path shadow_path))

-- The callback of the walk, on a directory without an error.
unfoldable pub add_directory : Places → Text → Text → Saved → Saved
add_directory P shadow_path path saved =
    let parts = parts_below shadow_path path in
    let added = add_part P path parts saved in
    if nat_beq (length parts) P.total then added else saved

abbrev pub unless_walk_failed : Option Error → Result Saved → Result Saved
unless_walk_failed (some e) rest = err e
unless_walk_failed none rest = rest

-- The walk: the map is returned beside an error, and is not used then.
unfoldable pub add_walked_parts : Places → Text → List Walked → Saved → Result Saved
add_walked_parts P shadow_path [] saved = ok saved
add_walked_parts P shadow_path (w ∷ walked) saved = unless_walk_failed w.failure (
    add_walked_parts P shadow_path walked
      (if is_directory w.kind then add_directory P shadow_path w.path saved else saved))

module _ (L : Machine) (D : Disk L) (data_path : Config → L.State → Result Text) where
  abbrev pub saved_at : Text → Result FileInfo → L.State → Result Saved
  saved_at shadow_path (err e) s = err (errorf (codes "can't get tables, " ++ error_text e))
  saved_at shadow_path (ok info) s =
      if info.is_dir
      then add_walked_parts (places (is_clickhouse_shadow L shadow_path s)) shadow_path
          (D.walk s shadow_path) []
      else err (errorf (codes "can't get tables, " ++ shadow_path ++ codes " is not a dir"))

  abbrev pub shadow_in_backup : Text → Text → Text
  shadow_in_backup path name = path_join (path ∷ codes "backup" ∷ name ∷ codes "shadow" ∷ [])

  abbrev pub saved_below : Text → Result Text → L.State → Result Saved
  saved_below backup_name (err e) s = err e
  saved_below backup_name (ok path) s =
      let shadow_path = shadow_in_backup path backup_name in
      saved_at shadow_path (L.stat s shadow_path) s

  unfoldable pub get_backup_tables : Config → Text → L.State → Result Saved
  get_backup_tables config backup_name s = saved_below backup_name (data_path config s) s

  -- The owner of the data directory, which the program keeps after its first call, is looked up each
  -- time.
  unfoldable pub chown : Config → Text → L.State → L.State × Option Error
  chown config filename s = elim (data_path config s) [
    | err e ↦ (s, some e)
    | ok path ↦ elim (L.stat s (path_join (path ∷ codes "data" ∷ []))) [
      | err e ↦ (s, some e)
      | ok info ↦ D.chown filename s
    ]
  ]

  abbrev link_error : Text → Text → L.State × Option Error → L.State × Option Error
  link_error path target (s, none) = (s, none)
  link_error path target (s, some e) = (
    s,
    some (
        errorf (
          codes "failed to crete hard link '"
          ++ path
          ++ codes "' -> '"
          ++ target
          ++ codes "': "
          ++ error_text e)),
  )

  -- A file of a part and its place, by its kind.
  abbrev pub place_by_kind : Config → Kind → Text → Text → L.State → L.State × Option Error
  place_by_kind config directory path target s =
      ignoring (D.mkdir_all target s) then_do chown config target
  place_by_kind config regular path target s =
      link_error path target (D.link path target s) then_do chown config target
  place_by_kind config special path target s = (s, none)

  -- The callback of the walk.
  abbrev pub place_walked : Config → Text → Text → Walked → L.State → L.State × Option Error
  place_walked config part_path detached_path w s = elim w.failure [
    | some e ↦ (s, some e)
    | none ↦
        let filename = trim b'/' (trim_prefix w.path part_path) in
        place_by_kind config w.kind w.path (path_join (detached_path ∷ filename ∷ [])) s
  ]

  abbrev walk_error : Text → L.State × Option Error → L.State × Option Error
  walk_error path (s, none) = (s, none)
  walk_error path (s, some e) = (
    s,
    some (
        errorf (
          codes "error during filepath.Walk for partition '"
          ++ path
          ++ codes "': "
          ++ error_text e)),
  )

  -- The directory of a part is there already, or it is made.
  abbrev pub make_part_dir : Text → Result FileInfo → L.State → L.State × Option Error
  make_part_dir path (ok info) s =
      if info.is_dir
      then (s, none)
      else (s, some (errorf (codes "'" ++ path ++ codes "' should be directory or absent")))
  make_part_dir path (err e) s =
      if is_not_exist e then ignoring (D.mkdir_all path s) else (s, some e)

  abbrev pub copy_partition : Config → Text → BackupPartition → L.State → L.State × Option Error
  copy_partition config parent partition s =
      let path = path_join (parent ∷ partition.name ∷ []) in
      make_part_dir path (L.stat s path) s
      then_do (λ s₁. ignoring (chown config path s₁))
      then_do (λ s₂.
          walk_error partition.path
            (for_each (place_walked config partition.path path) (D.walk s₂ partition.path) s₂))

  abbrev pub detached_dir : Text → BackupTable → Text
  detached_dir path table = path_join (
      path
      ∷ codes "data"
      ∷ table_path_encode table.database
      ∷ table_path_encode table.name
      ∷ codes "detached"
      ∷ [])

  unfoldable pub copy_data : Config → BackupTable → L.State → L.State × Option Error
  copy_data config table s = elim (data_path config s) [
    | err e ↦ (s, some e)
    | ok path ↦
        let parent = detached_dir path table in
        ignoring (D.mkdir_all parent s)
        then_do (λ s₁. ignoring (chown config parent s₁))
        then_do for_each (copy_partition config parent) table.partitions
  ]
