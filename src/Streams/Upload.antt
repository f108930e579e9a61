-- ===== src/Streams/Upload.antt =====
-- `CompressedStreamUpload` of pkg/chbackup/backup_destination.go. The progress bar, and the walk that
-- counts the bytes for it, are left out.
use clickhouse_backup.Base.{
  Text, codes, Bool, not, ◌&&◌, Option, none, some, List, [], ◌∷◌, ◌++◌, trim_prefix, Error, errorf,
  is_not_found, Result, ok, err, if◌then◌else◌,
}
use clickhouse_backup.Base.Paths.{slash, path_join, path_base, is_empty}
use clickhouse_backup.Config.Formats.{Archiver, get_archive_writer}
use clickhouse_backup.Local.{Machine}
use clickhouse_backup.Files.{Disk, Walked, is_regular, is_clickhouse_shadow}
use clickhouse_backup.Remote.{RemoteStorage, RemoteFile, BackupDestination}
use clickhouse_backup.Streams.{
  Codec, Entry, Outcome, meta_file_name, archive_name, unless_error, returned, panics,
}

-- What the goroutine has written, the names that it has set aside, and the error that stopped it.
pub record Packed : Type 0 where
  pub entries : List Entry
  pub links : List Text
  pub failure : Option Error

abbrev pub stopped : Option Error → Packed
stopped failure = record { entries = []; links = []; failure = failure }

-- The walk ends at an error.
abbrev pub unless_failed : Option Error → Packed → Packed
unless_failed (some e) P = stopped (some e)
unless_failed none P = P

abbrev pub add_entry : Entry → Packed → Packed
add_entry e P = record { entries = e ∷ P.entries; links = P.links; failure = P.failure }

abbrev pub add_link : Text → Packed → Packed
add_link name P = record { entries = P.entries; links = name ∷ P.links; failure = P.failure }

-- `strings.TrimPrefix(strings.TrimPrefix(filePath, localPath), "/")`
unfoldable pub relative_to : Text → Text → Text
relative_to local path = trim_prefix (trim_prefix path local) slash

module _ (C : Codec) where
  -- `z.Write`, with what the rest of the walk adds.
  abbrev pub write_file : Archiver → Entry → Packed → Packed
  write_file z e rest = unless_failed (C.write_error z e) (add_entry e rest)

  abbrev pub pack_read : Archiver → Bool → Text → Result Text → Packed → Packed
  pack_read z same name (err e) rest = stopped (some e)
  pack_read z same name (ok content) rest =
      if same then add_link name rest else write_file z (name, content) rest

module _ (L : Machine) (D : Disk L) (C : Codec) where
  -- The file is the one of that name below `diff`.
  abbrev pub is_same : Text → Text → Text → L.State → Bool
  is_same diff path name s =
      not (is_empty diff) && D.same_file s path (path_join (diff ∷ name ∷ []))

  -- The callback of the walk.
  abbrev pub pack_walked : Archiver → Text → Text → Walked → L.State → Packed → Packed
  pack_walked z local diff w s rest =
      let name = relative_to local w.path in
      let same = is_same diff w.path name s in
      let packed = pack_read C z same name (D.read_file s w.path) rest in
      unless_failed w.failure (if is_regular w.kind then packed else rest)

  unfoldable pub pack : Archiver → Text → Text → List Walked → L.State → Packed
  pack z local diff [] s = stopped none
  pack z local diff (w ∷ walked) s = pack_walked z local diff w s (pack z local diff walked s)

  abbrev pub meta_of_links : Text → List Text → Entry
  meta_of_links diff links = (
    meta_file_name,
    C.encode_meta (record { required_backup = path_base diff; hardlinks = links }),
  )

  -- The entries that the archive holds in the end: `meta.json` stands last, if there are links and
  -- nothing fails.
  unfoldable pub packed_entries : Archiver → Text → Packed → L.State → List Entry
  packed_entries z diff P s = elim P.failure [
    | some e ↦ P.entries
    | none ↦ elim P.links [
      | [] ↦ P.entries
      | name ∷ names ↦ elim (D.write_temp s) [
        | some e ↦ P.entries
        | none ↦ elim (C.write_error z (meta_of_links diff (name ∷ names))) [
          | some e ↦ P.entries
          | none ↦ P.entries ++ (meta_of_links diff (name ∷ names) ∷ [])
        ]
      ]
    ]
  ]

  -- Nothing is written if the archive cannot be begun.
  abbrev after_create : Option Error → Text → Text
  after_create (some e) content = []
  after_create none content = content

  -- What the goroutine writes to the pipe. The pipe is closed without an error whatever happens: the
  -- argument of the deferred `CloseWithError(ferr)` is taken when `ferr` is still `nil`.
  unfoldable pub stream : Archiver → Text → Text → L.State → Text
  stream z local diff s =
      after_create (C.create_error z)
        (C.encode z (packed_entries z diff (pack z local diff (D.walk s local) s) s))

  abbrev not_directory : Text → Error
  not_directory diff = errorf (codes "'" ++ diff ++ codes "' is not a directory")

  abbrev old_format : Text → Error
  old_format diff =
      errorf
        (codes "'" ++ path_base diff ++ codes "' is old format backup and doesn't supports diff")

  -- Why a backup may not be uploaded as the difference from `diff`.
  unfoldable pub diff_error : Text → L.State → Option Error
  diff_error diff s = if is_empty diff then none else elim (L.stat s diff) [
    | err e ↦ some e
    | ok info ↦
        if not info.is_dir
        then some (not_directory diff)
        else if is_clickhouse_shadow L (path_join (diff ∷ codes "shadow" ∷ [])) s
        then some (old_format diff)
        else none
  ]

  module _ (S : RemoteStorage) where
    -- The remote storage is asked for the archive, whose absence is no error.
    abbrev pub archive_error : Result RemoteFile → Option Error
    archive_error (ok file) = none
    archive_error (err e) = if is_not_found e then none else some e

    abbrev pub put_stream :
        BackupDestination
        → Text
        → Text
        → Text
        → Result Archiver
        → L.State
        → S.State
        → Outcome (L.State × S.State)
    put_stream bd local remote diff (err e) l r = panics
    put_stream bd local remote diff (ok z) l r =
        let (r', failure) = S.put_file r (archive_name bd remote) (stream z local diff l) in
        returned (l, r') failure

    unfoldable pub compressed_stream_upload :
        BackupDestination → Text → Text → Text → L.State → S.State → Outcome (L.State × S.State)
    compressed_stream_upload bd local remote diff l r =
        unless_error (archive_error (S.get_file r (archive_name bd remote))) (l, r)
          (unless_error (diff_error diff l) (l, r)
            (put_stream bd local remote diff
              (get_archive_writer bd.compression_format bd.compression_level) l r))
