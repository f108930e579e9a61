-- ===== src/Remote.antt =====
-- The remote side of pkg/chbackup/backup_destination.go: `RemoteFile`, `RemoteStorage`,
-- `BackupDestination`, `BackupList`, `RemoveBackup` and `RemoveOldBackups`.
-- The storages are clients of services that the repository does not hold, so the interface is a
-- parameter over an unknown state.
pub mod Listing
pub mod Removal
pub mod Memory
pub mod Destination
use clickhouse_backup.Base.{
  ℕ, Text, codes, ◌==◌, Bool, true, false, ◌&&◌, ◌||◌, Option, none, some, List, [], ◌∷◌, map, ℤ,
  pos, ltb_ℤ, keep_if, has_prefix, has_suffix, trim_prefix, split, Error, Result, ok, err,
  if◌then◌else◌,
}
use clickhouse_backup.Base.Maps.{lookup, map_set}
use clickhouse_backup.Base.Paths.{slash, path_join}
use clickhouse_backup.Base.Sorting.{sort_stable}
use clickhouse_backup.Retention.{Backup, date_before, get_backups_to_delete}

-- What `Size`, `Name` and `LastModified` return.
pub record RemoteFile : Type 0 where
  pub size : ℕ
  pub name : Text
  pub last_modified : ℕ

-- `walk` gives the files that the callback sees, in order, and then the error, if any.
pub record RemoteStorage : Type 1 where
  pub State : Type 0
  pub kind : Text
  pub get_file : State → Text → Result RemoteFile
  pub delete_file : State → Text → State × Option Error
  pub connect : State → State × Option Error
  pub walk : State → Text → List RemoteFile × Option Error
  pub get_file_reader : State → Text → Result Text
  pub put_file : State → Text → Text → State × Option Error

pub record BackupDestination : Type 0 where
  pub path : Text
  pub compression_format : Text
  pub compression_level : ℤ
  pub disable_progress_bar : Bool
  pub backups_to_keep : ℤ

-- The local type `ClickhouseBackup` of `BackupList`.
pub record ClickhouseBackup : Type 0 where
  pub metadata : Bool
  pub shadow : Bool
  pub tar : Bool
  pub size : ℕ
  pub date : ℕ

abbrev pub Files : Type 0
Files = List (Text × ClickhouseBackup)

-- Go's zero value; the zero instant is the origin of dates.
abbrev pub no_backup : ClickhouseBackup
no_backup = record { metadata = false; shadow = false; tar = false; size = 0; date = 0 }

abbrev pub or_zero : Option ClickhouseBackup → ClickhouseBackup
or_zero none = no_backup
or_zero (some b) = b

unfoldable pub is_archive : Text → Bool
is_archive name =
    has_suffix name (codes ".tar")
    || has_suffix name (codes ".tar.lz4")
    || has_suffix name (codes ".tar.bz2")
    || has_suffix name (codes ".tar.gz")
    || has_suffix name (codes ".tar.sz")
    || has_suffix name (codes ".tar.xz")

-- The elements of a file's name below the destination's path.
unfoldable pub key_parts : Text → Text → List Text
key_parts path name = split b'/' (trim_prefix (trim_prefix name path) slash)

abbrev pub archive_entry : RemoteFile → ClickhouseBackup
archive_entry o = record {
  metadata = false;
  shadow = false;
  tar = true;
  size = o.size;
  date = o.last_modified;
}

abbrev pub folder_entry : Text → ClickhouseBackup → ClickhouseBackup
folder_entry part b = record {
  metadata = b.metadata || part == codes "metadata";
  shadow = b.shadow || part == codes "shadow";
  tar = false;
  size = b.size;
  date = b.date;
}

unfoldable pub add_archive : RemoteFile → Text → Files → Files
unfolding is_archive map_set
add_archive o first files =
    if is_archive first then map_set first (archive_entry o) files else files

unfoldable pub add_folder : Text → List Text → Files → Files
add_folder first [] files = files
add_folder first (part ∷ _) files =
    map_set first (folder_entry part (or_zero (lookup first files))) files

unfoldable pub add_parts : RemoteFile → List Text → Files → Files
add_parts o [] files = files
add_parts o (first ∷ rest) files = add_folder first rest (add_archive o first files)

-- The callback of `BackupList`.
unfoldable pub add_file : Text → Files → RemoteFile → Files
add_file path files o =
    if has_prefix o.name path then add_parts o (key_parts path o.name) files else files

unfoldable pub add_files : Text → List RemoteFile → Files → Files
add_files path [] files = files
add_files path (o ∷ objects) files = add_files path objects (add_file path files o)

abbrev pub is_complete : ClickhouseBackup → Bool
is_complete e = e.metadata && e.shadow || e.tar

abbrev pub to_backup : Text × ClickhouseBackup → Backup
to_backup (name, e) = record { name = name; size = e.size; date = e.date }

-- From the map to the result. `order` is the order in which `range` visits the map.
unfoldable pub list_entries : (Files → Files) → Files → List Backup
list_entries order files =
    sort_stable date_before (map to_backup (keep_if (λ e. is_complete e.1) (order files)))

-- The names that `RemoveBackup` collects.
unfoldable pub objects_of : BackupDestination → Text → List RemoteFile → List Text
objects_of bd name objects =
    map (λ o. o.name) (keep_if (λ o. has_prefix o.name (path_join (bd.path ∷ name ∷ []))) objects)

module _ (S : RemoteStorage) where
  unfoldable pub delete_files : List Text → S.State → S.State × Option Error
  delete_files [] s = (s, none)
  delete_files (key ∷ keys) s =
      let (s', failure) = S.delete_file s key in
      elim failure [ some e ↦ (s', some e) | none ↦ delete_files keys s' ]

  unfoldable pub remove_backup : BackupDestination → Text → S.State → S.State × Option Error
  remove_backup bd name s =
      let (objects, failure) = S.walk s bd.path in
      elim failure [ some e ↦ (s, some e) | none ↦ delete_files (objects_of bd name objects) s ]

  unfoldable pub remove_backups : BackupDestination → List Backup → S.State → S.State × Option Error
  remove_backups bd [] s = (s, none)
  remove_backups bd (b ∷ backups) s =
      let (s', failure) = remove_backup bd b.name s in
      elim failure [ some e ↦ (s', some e) | none ↦ remove_backups bd backups s' ]

module _ (S : RemoteStorage) (order : Files → Files) where
  unfoldable pub backup_list : BackupDestination → S.State → Result (List Backup)
  backup_list bd s =
      let (objects, failure) = S.walk s bd.path in
      elim failure [
        | some e ↦ err e
        | none ↦ ok (list_entries order (add_files bd.path objects []))
      ]

  -- The outer `none` is a panic of `GetBackupsToDelete`.
  unfoldable pub remove_old_backups :
      BackupDestination → ℤ → S.State → Option (S.State × Option Error)
  remove_old_backups bd keep s =
      if ltb_ℤ keep (pos 1) then some (s, none) else elim (backup_list bd s) [
        | err e ↦ some (s, some e)
        | ok backups ↦ elim (get_backups_to_delete backups keep) [
          | none ↦ none
          | some old ↦ some (remove_backups S bd old s)
        ]
      ]
