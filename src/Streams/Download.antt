-- ===== src/Streams/Download.antt =====
-- `CompressedStreamDownload` of pkg/chbackup/backup_destination.go. The progress bar is left out; an
-- archive in another format than tar, which the readers cannot give, is too.
use clickhouse_backup.Base.{
  ℕ, zero, suc, Text, codes, ◌==◌, Option, none, some, List, [], ◌∷◌, ◌++◌, Error, error_text,
  errorf, is_exist, is_not_exist, Result, ok, err, if◌then◌else◌,
}
use clickhouse_backup.Base.Paths.{path_join, path_dir}
use clickhouse_backup.Base.Steps.{for_each}
use clickhouse_backup.Config.Formats.{ArchiveKind, get_archive_reader}
use clickhouse_backup.Local.{Machine, FileInfo}
use clickhouse_backup.Files.{Disk}
use clickhouse_backup.Remote.{RemoteStorage, BackupDestination}
use clickhouse_backup.Streams.{
  Codec, Entry, MetaFile, Outcome, meta_file_name, archive_name, unless_error, unless_err, returned,
  panics, unfinished,
}

-- `var metafile MetaFile`
abbrev pub no_meta : MetaFile
no_meta = record { required_backup = []; hardlinks = [] }

abbrev pub if_absent : {S : Type 0} → Result FileInfo → S → S → S
if_absent (ok info) made s = s
if_absent (err e) made s = if is_not_exist e then made else s

-- What follows a step of the loop, unless it fails.
abbrev pub after_meta :
    {S : Type 0} → Result MetaFile → S → (MetaFile → S × Result MetaFile) → S × Result MetaFile
after_meta (err e) s rest = (s, err e)
after_meta (ok meta) s rest = rest meta

abbrev pub after_write :
    {S : Type 0} → S × Option Error → (S → S × Result MetaFile) → S × Result MetaFile
after_write (s, some e) rest = (s, err e)
after_write (s, none) rest = rest s

module _ (L : Machine) (D : Disk L) (C : Codec) where
  -- `if _, err := os.Stat(dir); os.IsNotExist(err) { os.MkdirAll(dir) }`
  unfoldable pub make_dir : Text → L.State → L.State
  make_dir dir s = if_absent (L.stat s dir) (D.mkdir_all dir s).0 s

  unfoldable pub write_entry : Text → Entry → L.State → L.State × Option Error
  write_entry local (name, content) s =
      let path = path_join (local ∷ name ∷ []) in
      D.create_file path content (make_dir (path_dir path) s)

  -- The loop over the archive: what is left of it, with the `metafile` so far.
  unfoldable pub extract :
      Text → List Entry → Option Error → MetaFile → L.State → L.State × Result MetaFile
  extract local [] none meta s = (s, ok meta)
  extract local [] (some e) meta s = (s, err e)
  extract local ((name, content) ∷ entries) ending meta s =
      let read =
        after_meta (C.decode_meta content meta) s (λ meta'. extract local entries ending meta' s) in
      let written =
        after_write (write_entry local (name, content) s)
          (λ s'. extract local entries ending meta s') in
      if name == meta_file_name then read else written

  abbrev pub link_one : Text → Text → Text → L.State → L.State × Option Error
  link_one local required name s =
      let new_name = path_join (local ∷ name ∷ []) in
      let old_name = path_join (path_dir local ∷ required ∷ name ∷ []) in
      D.link old_name new_name (make_dir (path_dir new_name) s)

  abbrev pub link_all : Text → MetaFile → L.State → L.State × Option Error
  link_all local meta = for_each (link_one local meta.required_backup) meta.hardlinks

  module _ (S : RemoteStorage) where
    abbrev pub Both : Type 0
    Both = L.State × S.State

    abbrev pub link_then : Text → MetaFile → Both → Outcome Both
    link_then local meta (l, r) =
        let (l', failure) = link_all local meta l in returned (l', r) failure

    -- What is made of the result of the inner download.
    abbrev pub after_required : Text → MetaFile → Outcome Both → Outcome Both
    after_required local meta panics = panics
    after_required local meta unfinished = unfinished
    after_required local meta (returned both none) = link_then local meta both
    after_required local meta (returned both (some e)) =
        if is_exist e
        then link_then local meta both
        else returned both (
            some (
              errorf
                (codes "can't download '" ++ meta.required_backup ++ codes "': " ++ error_text e)))

    -- The backup that is required, if one is, comes first: `next` downloads it.
    abbrev pub require :
        (Text → Text → Both → Outcome Both) → Text → MetaFile → Both → Text → Outcome Both
    require next local meta both [] = link_then local meta both
    require next local meta both (c ∷ name) =
        after_required local meta
          (next (c ∷ name) (path_join (path_dir local ∷ (c ∷ name) ∷ [])) both)

    abbrev pub after_extract :
        (Text → Text → Both → Outcome Both) → Text → MetaFile → Both → Outcome Both
    after_extract next local meta both = require next local meta both meta.required_backup

    abbrev pub read_archive :
        (Text → Text → Both → Outcome Both) → Text → Result ArchiveKind → Text → Both → Outcome Both
    read_archive next local (err e) content both = panics
    read_archive next local (ok kind) content (l, r) =
        let (entries, ending) = C.decode kind content in
        let (l', read) = extract local entries ending no_meta l in
        unless_err read (l', r) (λ meta. after_extract next local meta (l', r))

    abbrev pub fetch :
        (Text → Text → Both → Outcome Both) → BackupDestination → Text → Text → Both → Outcome Both
    fetch next bd remote local (l, r) =
        unless_err (S.get_file r (archive_name bd remote)) (l, r)
          (λ file.
            unless_err (S.get_file_reader r (archive_name bd remote)) (l, r)
              (λ content.
                read_archive next local (get_archive_reader bd.compression_format) content (l, r)))

    abbrev pub download_with :
        (Text → Text → Both → Outcome Both) → BackupDestination → Text → Text → Both → Outcome Both
    download_with next bd remote local (l, r) =
        let (l', made) = D.mkdir_all local l in
        let (r', connected) = S.connect r in
        unless_error made (l', r)
          (unless_error connected (l', r') (fetch next bd remote local (l', r')))

    -- The fuel bounds the chain of required backups.
    unfoldable pub compressed_stream_download :
        ℕ → BackupDestination → Text → Text → Both → Outcome Both
    compressed_stream_download zero bd remote local both = unfinished
    compressed_stream_download (suc fuel) bd remote local both =
        download_with (compressed_stream_download fuel bd) bd remote local both
