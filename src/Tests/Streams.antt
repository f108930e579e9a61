-- ===== src/Tests/Streams.antt =====
-- Uploads and downloads, in memory.
use clickhouse_backup.Base.{
  ℕ, zero, suc, ◌<◌, ◌≡◌, refl, ap, Text, codes, ◌==◌, ==→eq, Bool, true, false, none, some, List,
  [], ◌∷◌, ◌++◌, any, All, pos, Option, Error, not_exist, Result, ok, err, NodupBy, if◌then◌else◌,
  arith, not_found,
}
use clickhouse_backup.Base.Paths.{path_join}
use clickhouse_backup.Config.Formats.{tar, plain, get_archive_writer, get_archive_reader}
use clickhouse_backup.Files.{Disk, Walked, regular, is_regular}
use clickhouse_backup.Remote.{BackupDestination}
use clickhouse_backup.Streams.{archive_name, returned}
use clickhouse_backup.Streams.Upload.{pack, relative_to, diff_error, compressed_stream_upload}
use clickhouse_backup.Streams.Download.{compressed_stream_download}
use clickhouse_backup.Streams.Packing.{IsPacked, pack-IsPacked}
use clickhouse_backup.Streams.Truncation.{upload-unread}
use clickhouse_backup.Streams.Extraction.{destination}
use clickhouse_backup.Streams.Roundtrip.{download-upload}
use clickhouse_backup.Streams.Memory.{
  Store, memory_machine, memory_disk, memory_contents, memory_codec, memory_disk-NeverFails,
  memory_disk-FileLaws, memory_contents-HoldsFiles, memory_codec-CodecLaws,
}

abbrev bd : BackupDestination
bd = record {
  path = codes "p";
  compression_format = codes "tar";
  compression_level = pos 1;
  disable_progress_bar = true;
  backups_to_keep = pos 0;
}

abbrev two_files : Store
two_files = (codes "/b/x", codes "1") ∷ (codes "/b/s/y", codes "2") ∷ []

abbrev here : Text
here = codes "/b"

abbrev walked : List Walked
walked =
    record { path = codes "/b/x"; kind = regular; failure = none }
    ∷ record { path = codes "/b/s/y"; kind = regular; failure = none }
    ∷ []

pack-IsPacked_example :
    All
      (IsPacked memory_machine memory_disk memory_codec tar here here two_files
        (pack memory_machine memory_disk memory_codec tar here here walked two_files))
      walked
unfolding pack clickhouse_backup.Base.Maps.lookup ◌==◌ path_join relative_to
    clickhouse_backup.Base.trim_prefix
pack-IsPacked_example =
    pack-IsPacked memory_machine memory_disk memory_codec tar here here two_files walked refl

-- The second file is on the list, but it cannot be read.
abbrev broken_disk : Disk memory_machine
broken_disk = record memory_disk {
  walk = λ s path. walked;
  read_file =
      λ s path. if path == codes "/b/x" then ok (codes "1") else err (not_exist (codes "gone"));
}

upload-unread_example :
    let put : Store × Option Error =
      memory_contents.put_file []
        (archive_name bd (codes "b"))
        (memory_codec.encode tar ((codes "x", codes "1") ∷ [])) in
    compressed_stream_upload memory_machine broken_disk memory_codec memory_contents bd here
      (codes "b")
      []
      two_files
      []
    ≡ returned (two_files, put.0) put.1
unfolding clickhouse_backup.Base.Maps.lookup diff_error get_archive_writer ◌==◌ pack relative_to
    clickhouse_backup.Base.trim_prefix
upload-unread_example =
    upload-unread memory_machine broken_disk memory_codec memory_contents bd here (codes "b") []
      two_files [] tar (not_exist (codes "gone")) (codes "/b/s/y")
      (record { path = codes "/b/x"; kind = regular; failure = none } ∷ []) [] refl refl refl refl
      refl refl refl

abbrev uploaded : Store
uploaded =
    (
      archive_name bd (codes "b"),
      memory_codec.encode tar ((codes "x", codes "1") ∷ (codes "s/y", codes "2") ∷ []),
    )
    ∷ []

apart :
    NodupBy
      (λ e f. destination (codes "/c") e == destination (codes "/c") f)
      (pack memory_machine memory_disk memory_codec tar here []
        (memory_disk.walk two_files here)
        two_files).entries
unfolding pack clickhouse_backup.Base.Maps.lookup ◌==◌ path_join relative_to
    clickhouse_backup.Base.trim_prefix clickhouse_backup.Base.has_prefix
apart = (refl, (refl, tt))

download-upload_example :
    (compressed_stream_upload memory_machine memory_disk memory_codec memory_contents bd here
        (codes "b")
        []
        two_files
        []
      ≡ returned (two_files, uploaded) none)
    × ((fuel : ℕ) (l₁ : Store)
        → (l₂ : Store) × (compressed_stream_download memory_machine memory_disk memory_codec
              memory_contents
              (suc fuel)
              bd
              (codes "b")
              (codes "/c")
              (l₁, uploaded)
            ≡ returned (l₂, uploaded) none)
          × All
              (λ w.
                is_regular w.kind ≡ true
                → (content : Text) × (memory_disk.read_file two_files w.path ≡ ok content)
                  × (memory_disk.read_file l₂
                        (path_join (codes "/c" ∷ relative_to here w.path ∷ []))
                      ≡ ok content))
              (memory_disk.walk two_files here))
unfolding get_archive_writer ◌==◌ get_archive_reader clickhouse_backup.Base.Maps.lookup pack
    clickhouse_backup.Base.has_prefix relative_to clickhouse_backup.Base.trim_prefix
    clickhouse_backup.Base.Maps.map_set
download-upload_example =
    download-upload memory_machine memory_disk memory_codec memory_contents bd
      memory_codec-CodecLaws memory_contents-HoldsFiles memory_disk-NeverFails memory_disk-FileLaws
      tar plain here (codes "b") (codes "/c") two_files [] uploaded refl refl refl refl refl apart
      refl
