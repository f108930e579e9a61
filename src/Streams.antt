-- ===== src/Streams.antt =====
-- The archives of `CompressedStreamUpload` and `CompressedStreamDownload` of
-- pkg/chbackup/backup_destination.go: what both use.
pub mod Upload
pub mod Download
pub mod Truncation
pub mod Packing
pub mod Extraction
pub mod Roundtrip
pub mod Termination
pub mod Memory
use clickhouse_backup.Base.{
  Text, codes, List, [], ◌∷◌, ◌++◌, Option, none, some, Error, error_text, errorf, Result, ok, err,
}
use clickhouse_backup.Base.Paths.{path_join}
use clickhouse_backup.Config.Formats.{Archiver, ArchiveKind, get_extension}
use clickhouse_backup.Remote.{BackupDestination}

abbrev pub meta_file_name : Text
meta_file_name = codes "meta.json"

pub record MetaFile : Type 0 where
  pub required_backup : Text
  pub hardlinks : List Text

-- A file of an archive: its name and its content.
abbrev pub Entry : Type 0
Entry = Text × Text

-- The packages `mholt/archiver` and `encoding/json`. `encode` is what an archiver has written once it
-- is closed, and `decode` gives the entries that are read, and the error at which the reading ends,
-- if it is no end of file. `write_error` is the error of `Write`, which then has written nothing.
-- `decode_meta` is `json.Unmarshal` into a value that is there.
pub record Codec : Type 0 where
  pub create_error : Archiver → Option Error
  pub write_error : Archiver → Entry → Option Error
  pub encode : Archiver → List Entry → Text
  pub decode : ArchiveKind → Text → List Entry × Option Error
  pub encode_meta : MetaFile → Text
  pub decode_meta : Text → MetaFile → Result MetaFile

-- How a call ends: it returns, it panics, or (where fuel bounds it) it has not ended yet.
pub data Outcome (S : Type 0) : Type 0 where
  returned : S → Option Error → Outcome S
  panics : Outcome S
  unfinished : Outcome S

-- `if err != nil { return err }`
abbrev pub unless_error : {S : Type 0} → Option Error → S → Outcome S → Outcome S
unless_error (some e) s rest = returned s (some e)
unless_error none s rest = rest

-- The same, where the call has changed the state.
abbrev pub then_out : {S : Type 0} → S × Option Error → (S → Outcome S) → Outcome S
then_out (s, some e) rest = returned s (some e)
then_out (s, none) rest = rest s

-- `if err := call(); err != nil { return fmt.Errorf(context + ": %v", err) }`
abbrev pub then_explained : {S : Type 0} → Text → Outcome S → (S → Outcome S) → Outcome S
then_explained context panics rest = panics
then_explained context unfinished rest = unfinished
then_explained context (returned s (some e)) rest =
    returned s (some (errorf (context ++ codes ": " ++ error_text e)))
then_explained context (returned s none) rest = rest s

-- A call that panics where it is `none`.
abbrev pub or_panic : {S : Type 0} → Option (S × Option Error) → Outcome S
or_panic none = panics
or_panic (some (s, failure)) = returned s failure

abbrev pub unless_err {ℓ} : {S : Type 0} {A : Type ℓ} → Result A → S → (A → Outcome S) → Outcome S
unless_err (err e) s rest = returned s (some e)
unless_err (ok a) s rest = rest a

-- The key of a backup's archive.
unfoldable pub archive_name : BackupDestination → Text → Text
archive_name bd remote_path =
    path_join (bd.path ∷ (remote_path ++ codes "." ++ get_extension bd.compression_format) ∷ [])
