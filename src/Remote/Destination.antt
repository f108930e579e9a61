-- ===== src/Remote/Destination.antt =====
-- `NewBackupDestination` of pkg/chbackup/backup_destination.go: which storage a configuration names, and
-- what it is used with.
use clickhouse_backup.Base.{ℤ, Text, codes, ◌==◌, ◌++◌, errorf, Result, ok, err, if◌then◌else◌}
use clickhouse_backup.Config.{Config}
use clickhouse_backup.Remote.{BackupDestination}

-- The types that implement `RemoteStorage`.
pub data Storage : Type 0 where
  azblob : Storage
  s3 : Storage
  gcs : Storage
  cos : Storage
  ftp : Storage

-- The settings of a section, with the general ones.
abbrev pub destination_of : Config → Text → Text → ℤ → BackupDestination
destination_of config path format level = record {
  path = path;
  compression_format = format;
  compression_level = level;
  disable_progress_bar = config.general.disable_progress_bar;
  backups_to_keep = config.general.backups_to_keep_remote;
}

abbrev pub settings : Config → Storage → BackupDestination
settings c azblob =
    destination_of c c.azure_blob.path c.azure_blob.compression_format
      c.azure_blob.compression_level
settings c s3 = destination_of c c.s3.path c.s3.compression_format c.s3.compression_level
settings c gcs = destination_of c c.gcs.path c.gcs.compression_format c.gcs.compression_level
settings c cos = destination_of c c.cos.path c.cos.compression_format c.cos.compression_level
settings c ftp = destination_of c c.ftp.path c.ftp.compression_format c.ftp.compression_level

-- The `switch` over the names of the storages.
unfoldable pub storage_named : Text → Result Storage
storage_named name =
    if name == codes "azblob"
    then ok azblob
    else if name == codes "s3"
    then ok s3
    else if name == codes "gcs"
    then ok gcs
    else if name == codes "cos"
    then ok cos
    else if name == codes "ftp"
    then ok ftp
    else err (errorf (codes "storage type '" ++ name ++ codes "' not supported"))

abbrev destination_for : Config → Result Storage → Result (Storage × BackupDestination)
destination_for config (err e) = err e
destination_for config (ok storage) = ok (storage, settings config storage)

unfoldable pub new_backup_destination : Config → Result (Storage × BackupDestination)
new_backup_destination config = destination_for config (storage_named config.general.remote_storage)
