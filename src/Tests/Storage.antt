-- ===== src/Tests/Storage.antt =====
-- Retention and the remote storage, on a storage of four files.
use clickhouse_backup.Base.{
  ℕ, ◌≤◌, ◌≡◌, refl, ◌⊎◌, Text, codes, ◌==◌, ◌++◌, Bool, true, false, not, ◌&&◌, Option, none, some,
  List, [], ◌∷◌, any, keep_if, All, Perm, length, min, pos, pos_part, ltb_ℤ, Error, Result, ok, err,
  has_suffix, has_prefix, split, trim_prefix,
}
use mathlib.Core.List.Perm
use clickhouse_backup.Base.Paths.{path_join}
use clickhouse_backup.Base.Sorting.{IsSorted}
use clickhouse_backup.Retention.{Backup, date_before, get_backups_to_delete}
use clickhouse_backup.Retention.Oldest.{get_backups_to_delete-oldest}
use clickhouse_backup.Base.Steps.{Turns}
use clickhouse_backup.Remote.{
  remove_backup, RemoteFile, BackupDestination, Files, is_archive, remove_backup, backup_list,
  list_entries, add_files, add_file, add_parts, add_archive, add_folder, key_parts, delete_files,
  objects_of, remove_old_backups,
}
use clickhouse_backup.Remote.Memory.{memory_storage, memory_storage-DeletesOnly}
use clickhouse_backup.Remote.Listing.{is_part_of, backup_list-folder}
use clickhouse_backup.Remote.Removal.{
  begins_as, walk-remove_backup, remove_backup_extended, remove_old_backups-oldest,
}

abbrev backup : Text → ℕ → Backup
backup name date = record { name = name; size = 0; date = date }

abbrev three : List Backup
three = backup (codes "b") 2 ∷ backup (codes "c") 3 ∷ backup (codes "a") 1 ∷ []

get_backups_to_delete-oldest_example :
    (kept deleted : List Backup) × (get_backups_to_delete three (pos 2) ≡ some deleted)
    × Perm (kept ++ deleted) three
    × (length kept ≡ min 2 (length three))
    × All (λ old. All (λ new. old.date ≤ new.date) kept) deleted
get_backups_to_delete-oldest_example = get_backups_to_delete-oldest three 2

delete_test : get_backups_to_delete three (pos 2) ≡ some (backup (codes "a") 1 ∷ [])
unfolding get_backups_to_delete
delete_test = refl

abbrev bucket : BackupDestination
bucket = record {
  path = codes "backup";
  compression_format = codes "gzip";
  compression_level = pos 1;
  disable_progress_bar = true;
  backups_to_keep = pos 1;
}

abbrev file : Text → ℕ → RemoteFile
file name modified = record { size = 10; name = name; last_modified = modified }

abbrev files : List RemoteFile
files =
    file (codes "backup/day/metadata/db/t.sql") 5
    ∷ file (codes "backup/day/shadow/db/t/data.bin") 5
    ∷ file (codes "backup/day2.tar.gz") 7
    ∷ file (codes "other/x") 1
    ∷ []

abbrev same_order : Files → Files
same_order m = m

day_folder : is_archive (codes "day") ≡ false
unfolding is_archive has_suffix
day_folder = refl

backup_list-folder_example :
    (backups : List Backup) × (backup_list memory_storage same_order bucket files ≡ ok backups)
    × IsSorted date_before backups
    × (any backups (λ b. b.name == codes "day") ≡ (
        any files (is_part_of (codes "backup") (codes "day") (codes "metadata"))
        && any files (is_part_of (codes "backup") (codes "day") (codes "shadow"))))
backup_list-folder_example =
    backup_list-folder memory_storage same_order bucket files files (codes "day") (λ m. Perm.rfl)
      refl day_folder

list_test :
    backup_list memory_storage same_order bucket files
    ≡ ok (
        record { name = codes "day"; size = 0; date = 0 }
        ∷ record { name = codes "day2.tar.gz"; size = 10; date = 7 }
        ∷ [])
unfolding backup_list list_entries add_files add_file add_parts add_archive add_folder key_parts
    clickhouse_backup.Base.Sorting.sort_stable has_prefix split trim_prefix has_suffix ◌==◌
    clickhouse_backup.Base.Maps.lookup
list_test = refl

abbrev left : List RemoteFile
left = file (codes "other/x") 1 ∷ []

removed : remove_backup memory_storage bucket (codes "day") files ≡ (left, none)
unfolding remove_backup delete_files objects_of has_prefix path_join
removed = refl

walk-remove_backup_example :
    memory_storage.walk left (codes "backup")
    ≡ (keep_if (λ o. not (begins_as bucket (codes "day") o)) files, none)
walk-remove_backup_example =
    walk-remove_backup memory_storage memory_storage-DeletesOnly bucket (codes "day") files left
      files refl removed

remove_backup_extended_test :
    any left (λ o. o.name == path_join (codes "backup" ∷ codes "day" ∷ []) ++ codes "2.tar.gz")
    ≡ false
remove_backup_extended_test =
    remove_backup_extended memory_storage memory_storage-DeletesOnly bucket (codes "day")
      (codes "2.tar.gz") files left files refl removed

remove_old_backups-oldest_example :
    ((ltb_ℤ (pos 1) (pos 1) ≡ true)
      × (remove_old_backups memory_storage same_order bucket (pos 1) files ≡ some (files, none)))
    ⊎ ((e : Error) × (backup_list memory_storage same_order bucket files ≡ err e)
        × (remove_old_backups memory_storage same_order bucket (pos 1) files
            ≡ some (files, some e)))
    ⊎ ((backups kept deleted : List Backup) × (backup_list memory_storage same_order bucket files
          ≡ ok backups)
        × Perm (kept ++ deleted) backups
        × (length kept ≡ min (pos_part (pos 1)) (length backups))
        × All (λ old. All (λ new. old.date ≤ new.date) kept) deleted
        × (end : List RemoteFile × Option Error) × (remove_old_backups memory_storage same_order
              bucket
              (pos 1)
              files
            ≡ some end)
        × Turns (λ b. remove_backup memory_storage bucket b.name) deleted files end)
remove_old_backups-oldest_example =
    remove_old_backups-oldest memory_storage same_order bucket (pos 1) files
