-- ===== src/Config/Formats.antt =====
-- The archive formats of pkg/chbackup/utils.go. The archivers are those of `mholt/archiver`; here
-- they are told apart by their types.
use clickhouse_backup.Base.{Text, codes, ◌==◌, ℤ, [], Result, ok, err, errorf, if◌then◌else◌}

-- The types `Tar`, `TarLz4`, … with the compression level that is passed on, if one is.
pub data Archiver : Type 0 where
  tar : Archiver
  tar_lz4 : ℤ → Archiver
  tar_bz2 : ℤ → Archiver
  tar_gz : ℤ → Archiver
  tar_sz : Archiver
  tar_xz : Archiver

pub data ArchiveKind : Type 0 where
  plain lz4 bz2 gz sz xz : ArchiveKind

-- The `switch` over the names of the formats.
abbrev pub by_format {ℓ} : {A : Type ℓ} → Text → A → A → A → A → A → A → A → A
by_format format a b c d e f otherwise =
    if format == codes "tar"
    then a
    else if format == codes "lz4"
    then b
    else if format == codes "bzip2"
    then c
    else if format == codes "gzip"
    then d
    else if format == codes "sz"
    then e
    else if format == codes "xz"
    then f
    else otherwise

unfoldable pub get_archive_writer : Text → ℤ → Result Archiver
get_archive_writer format level =
    by_format format (ok tar) (ok (tar_lz4 level)) (ok (tar_bz2 level)) (ok (tar_gz level))
      (ok tar_sz) (ok tar_xz)
      (err
        (errorf (codes "wrong compression_format, supported: 'lz4', 'bzip2', 'gzip', 'sz', 'xz'")))

unfoldable pub get_extension : Text → Text
get_extension format =
    by_format format (codes "tar") (codes "tar.lz4") (codes "tar.bz2") (codes "tar.gz")
      (codes "tar.sz") (codes "tar.xz") []

unfoldable pub get_archive_reader : Text → Result ArchiveKind
get_archive_reader format = by_format format (ok plain) (ok lz4) (ok bz2) (ok gz) (ok sz) (ok xz) (
    err (
      errorf
        (codes "wrong compression_format, supported: 'tar', 'lz4', 'bzip2', 'gzip', 'sz', 'xz'")))
