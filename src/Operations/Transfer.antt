-- ===== src/Operations/Transfer.antt =====
-- The operations of pkg/chbackup/backup.go that use a remote storage: `Upload`, `Download`,
-- `RemoveBackupRemote`, `getRemoteBackups` and `PrintRemoteBackups`. The storage is the one that
-- `NewBackupDestination` makes of the configuration. What is printed on the way is left out.
use clickhouse_backup.Base.{
  ℕ, Text, codes, ◌==◌, Bool, true, Option, none, some, List, [], ◌∷◌, ◌++◌, any, Error, error_text,
  errorf, unknown_clickhouse_data_path, Result, ok, err, if◌then◌else◌,
}
use clickhouse_backup.Base.Paths.{is_empty}
use clickhouse_backup.Config.{Config}
use clickhouse_backup.Local.{Machine, backup_path, get_data_path, unless_panic, get_local_backup}
use clickhouse_backup.Files.{Disk}
use clickhouse_backup.Remote.{
  RemoteStorage, BackupDestination, Files, backup_list, remove_backup, remove_old_backups,
}
use clickhouse_backup.Remote.Destination.{new_backup_destination}
use clickhouse_backup.Retention.{Backup}
use clickhouse_backup.Operations.Printing.{print_backups, print_local_backups}
use clickhouse_backup.Streams.{
  Codec, Outcome, returned, panics, unless_error, unless_err, then_explained, or_panic,
}
use clickhouse_backup.Streams.Upload.{compressed_stream_upload}
use clickhouse_backup.Streams.Download.{compressed_stream_download}

abbrev pub is_off : Config → Bool
is_off config = config.general.remote_storage == codes "none"

-- The directory of the earlier backup, if one is named.
abbrev pub diff_path : Text → Text → Text
diff_path data_path [] = []
diff_path data_path (c ∷ name) = backup_path data_path (c ∷ name)

module _ (L : Machine) (D : Disk L) (C : Codec) (S : RemoteStorage) where
  abbrev pub Pair : Type 0
  Pair = L.State × S.State

  -- What follows a connection, and how its error is reported.
  abbrev pub connected :
      (Error → Error) → L.State → S.State × Option Error → (Pair → Outcome Pair) → Outcome Pair
  connected report l (r, some e) rest = returned (l, r) (some (report e))
  connected report l (r, none) rest = rest (l, r)

  abbrev pub remote_only : L.State → Outcome S.State → Outcome Pair
  remote_only l panics = panics
  remote_only l Outcome.unfinished = Outcome.unfinished
  remote_only l (returned r failure) = returned (l, r) failure

  abbrev connect_error : Error → Error
  connect_error e = errorf (codes "can't connect to " ++ S.kind ++ codes ": " ++ error_text e)

  abbrev pub upload_error : Option Error → Option Error
  upload_error none = none
  upload_error (some e) = some (errorf (codes "can't upload: " ++ error_text e))

  module _ (order : Files → Files) where
    abbrev pub remove_old : BackupDestination → Pair → Outcome Pair
    remove_old bd (l, r) =
        then_explained (codes "can't remove old backups")
          (remote_only l (or_panic (remove_old_backups S order bd bd.backups_to_keep r)))
          (λ both. returned both none)

    -- The archive first, then the backups that are too many.
    abbrev pub upload_connected :
        Config → BackupDestination → Text → Text → Text → Pair → Outcome Pair
    upload_connected config bd data_path name diff (l, r) =
        unless_panic (get_local_backup L config name l) panics (λ missing.
          unless_error (upload_error missing) (l, r)
            (then_explained (codes "can't upload")
              (compressed_stream_upload L D C S bd (backup_path data_path name) name
                (diff_path data_path diff) l r)
              (remove_old bd)))

    abbrev pub upload_from : Config → Text → Text → Pair → Text → Outcome Pair
    upload_from config name diff (l, r) data_path =
        if is_empty data_path
        then returned (l, r) (some unknown_clickhouse_data_path)
        else unless_err (new_backup_destination config) (l, r)
            (λ (storage, bd).
              connected connect_error l (S.connect r)
                (upload_connected config bd data_path name diff))

    unfoldable pub upload : Config → Text → Text → Pair → Outcome Pair
    upload config name diff (l, r) =
        if is_off config
        then returned (l, r) none
        else if is_empty name
        then unless_panic (print_local_backups L config (codes "all") l) panics
            (λ lines. returned (l, r) (some (errorf (codes "select backup for upload"))))
        else unless_panic (get_data_path L config l) panics (upload_from config name diff (l, r))

    abbrev pub download_to : ℕ → Config → Text → Pair → Text → Outcome Pair
    download_to fuel config name (l, r) data_path =
        if is_empty data_path
        then returned (l, r) (some unknown_clickhouse_data_path)
        else unless_err (new_backup_destination config) (l, r)
            (λ (storage, bd).
              connected (λ e. e) l (S.connect r)
                (compressed_stream_download L D C S fuel bd name (backup_path data_path name)))

    unfoldable pub download : ℕ → Config → Text → Pair → Outcome Pair
    download fuel config name (l, r) =
        if is_off config
        then returned (l, r) none
        else if is_empty name
        then returned (l, r) (some (errorf (codes "select backup for download")))
        else unless_panic (get_data_path L config l) panics (download_to fuel config name (l, r))

    abbrev not_on_remote : Text → Error
    not_on_remote name = errorf (codes "backup '" ++ name ++ codes "' not found on remote storage")

    abbrev pub remove_listed : BackupDestination → Text → Result (List Backup) → Pair → Outcome Pair
    remove_listed bd name (err e) both = returned both (some e)
    remove_listed bd name (ok backups) (l, r) =
        if any backups (λ b. b.name == name)
        then remote_only l (or_panic (some (remove_backup S bd name r)))
        else returned (l, r) (some (not_on_remote name))

    abbrev pub remove_with : Config → Text → Pair → Text → Outcome Pair
    remove_with config name (l, r) data_path =
        let report : Error → Error =
          λ e. errorf (codes "can't connect to remote storage: " ++ error_text e) in
        if is_empty data_path
        then returned (l, r) (some unknown_clickhouse_data_path)
        else unless_err (new_backup_destination config) (l, r)
            (λ (storage, bd).
              connected report l (S.connect r)
                (λ both. remove_listed bd name (backup_list S order bd both.1) both))

    unfoldable pub remove_backup_remote : Config → Text → Pair → Outcome Pair
    remove_backup_remote config name (l, r) =
        if is_off config
        then returned (l, r) none
        else unless_panic (get_data_path L config l) panics (remove_with config name (l, r))

    -- `getRemoteBackups`, with what connecting leaves of the storage.
    unfoldable pub get_remote_backups : Config → S.State → S.State × Result (List Backup)
    get_remote_backups config r =
        if is_off config then (r, ok []) else elim (new_backup_destination config) [
          | err e ↦ (r, err e)
          | ok (storage, bd) ↦
              let (r', failure) = S.connect r in
              elim failure [ some e ↦ (r', err e) | none ↦ (r', backup_list S order bd r') ]
        ]

    -- `PrintRemoteBackups`: its lines, without the notice of a storage that is switched off.
    unfoldable pub print_remote_backups : Config → Text → S.State → S.State × Result (List Text)
    print_remote_backups config format r =
        let (r', listed) = get_remote_backups config r in
        elim listed [ err e ↦ (r', err e) | ok backups ↦ (r', print_backups backups format true) ]
