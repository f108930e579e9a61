-- ===== src/Operations/Exchange.antt =====
-- `Upload` and `Download` of pkg/chbackup/backup.go together.
use clickhouse_backup.Base.{
  ℕ, suc, Text, codes, ◌==◌, ◌≡◌, refl, true, false, none, some, [], ◌∷◌, any, All, NodupBy, ltb_ℤ,
  pos, Error, error_text, errorf, ◌++◌, ok,
}
use clickhouse_backup.Base.Paths.{path_join, is_empty}
use clickhouse_backup.Config.{Config}
use clickhouse_backup.Config.Formats.{Archiver, ArchiveKind, get_archive_reader, get_archive_writer}
use clickhouse_backup.Local.{Machine, backup_path, get_data_path, get_local_backup}
use clickhouse_backup.Files.{Disk, is_regular}
use clickhouse_backup.Remote.{RemoteStorage, BackupDestination, Files, remove_old_backups}
use clickhouse_backup.Remote.Destination.{Storage, new_backup_destination}
use clickhouse_backup.Streams.{Codec, archive_name, meta_file_name, returned}
use clickhouse_backup.Streams.Upload.{
  Packed, pack, relative_to, archive_error, compressed_stream_upload,
}
use clickhouse_backup.Streams.Extraction.{NeverFails, FileLaws, destination}
use clickhouse_backup.Streams.Roundtrip.{CodecLaws, HoldsFiles, download-upload}
use clickhouse_backup.Operations.Transfer.{is_off, diff_path, remove_old, upload, download}

module _ (L : Machine) (D : Disk L) (C : Codec) (S : RemoteStorage) (order : Files → Files) where
  remove_old-few :
      (bd : BackupDestination) (l : L.State) (r : S.State)
      → ltb_ℤ bd.backups_to_keep (pos 1) ≡ true
      → remove_old L D C S order bd (l, r) ≡ returned (l, r) none
  unfolding remove_old_backups
  remove_old-few bd l r few = rw few refl

  -- If the upload of the archive reports an error, `Upload` does too, and it removes no old backup:
  -- the storage is left as the upload of the archive left it.
  pub upload-failed :
      (config : Config) (name diff path : Text) (l l' : L.State) (r r' : S.State)
      (storage : Storage) (bd : BackupDestination) (e : Error)
      → is_off config ≡ false
      → is_empty name ≡ false
      → get_data_path L config l ≡ some path
      → is_empty path ≡ false
      → new_backup_destination config ≡ ok (storage, bd)
      → S.connect r ≡ (r, none)
      → get_local_backup L config name l ≡ some none
      → compressed_stream_upload L D C S bd (backup_path path name) name (diff_path path diff) l r
        ≡ returned (l', r') (some e)
      → upload L D C S order config name diff (l, r)
        ≡ returned (l', r') (some (errorf (codes "can't upload: " ++ error_text e)))
  unfolding upload
  upload-failed config name diff path l l' r r' storage bd e on named asked known chosen connected
        there failed =
      rw (on, named, asked, known, chosen, connected, there, failed) refl

  -- A backup that `Upload` has uploaded without an earlier one can be downloaded by `Download` on
  -- any machine with the same configuration and data path: both end without an error, and then
  -- every regular file of the backup has its content in the backup of that name there. The
  -- conditions: a storage and a name are given, the backup is there, no old backups are to be
  -- removed, each of its files can be read and packed, none is named `meta.json`, no two have the
  -- same place, the storage can be connected to and holds what is put into it, it takes the
  -- archive, which is decoded as it was encoded, and the file system can make directories and
  -- files.
  pub download-upload_backup :
      (K : CodecLaws C) (H : HoldsFiles S) (N : NeverFails L D) (F : FileLaws L D) (config : Config)
      (storage : Storage) (bd : BackupDestination) (z : Archiver) (kind : ArchiveKind)
      (name path : Text) (l : L.State) (r r' : S.State)
      → is_off config ≡ false
      → is_empty name ≡ false
      → is_empty path ≡ false
      → get_data_path L config l ≡ some path
      → new_backup_destination config ≡ ok (storage, bd)
      → ltb_ℤ bd.backups_to_keep (pos 1) ≡ true
      → get_local_backup L config name l ≡ some none
      → get_archive_writer bd.compression_format bd.compression_level ≡ ok z
      → get_archive_reader bd.compression_format ≡ ok kind
      → archive_error L D C S (S.get_file r (archive_name bd name)) ≡ none
      → let local : Text = backup_path path name in
        let P : Packed = pack L D C z local [] (D.walk l local) l in
        (P.failure ≡ none)
        → any P.entries (λ e. e.0 == meta_file_name) ≡ false
        → NodupBy (λ e f. destination local e == destination local f) P.entries
        → S.put_file r (archive_name bd name) (C.encode z P.entries) ≡ (r', none)
        → (upload L D C S order config name [] (l, r) ≡ returned (l, r') none)
          × ((fuel : ℕ) (l₁ : L.State)
              → get_data_path L config l₁ ≡ some path
              → (l₂ : L.State) × (download L D C S order (suc fuel) config name (l₁, r')
                  ≡ returned (l₂, r') none)
                × All
                    (λ w.
                      is_regular w.kind ≡ true
                      → (content : Text) × (D.read_file l w.path ≡ ok content)
                        × (D.read_file l₂ (path_join (local ∷ relative_to local w.path ∷ []))
                            ≡ ok content))
                    (D.walk l local))
  unfolding upload download
  download-upload_backup K H N F config storage bd z kind name path l r r' on named known here
        chosen few there writer reader absent fine new distinct put =
      let local : Text = backup_path path name in
      let (uploaded, downloaded) =
        download-upload L D C S bd K H N F z kind local name local l r r' writer reader absent fine
          new distinct put in
      (
        rw (on, named, here, known, chosen, H.connect-none r, there, uploaded)
            (remove_old-few bd l r' few),
        λ fuel l₁ here₁.
            let (l₂, ended, files) = downloaded fuel l₁ in
            (l₂, rw (on, named, here₁, known, chosen, H.connect-none r') ended, files),
      )
