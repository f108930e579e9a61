-- ===== src/Tests/Chains.antt =====
-- Downloads of backups that require another one, in memory.
use clickhouse_backup.Base.{
  ℕ, zero, suc, ◌<◌, ◌≡◌, refl, ap, Text, codes, ◌==◌, ==→eq, Bool, true, false, none, some, List,
  [], ◌∷◌, ◌++◌, any, All, pos, Option, Error, not_exist, Result, ok, err, NodupBy, if◌then◌else◌,
  arith, not_found,
}
use clickhouse_backup.Base.Paths.{path_join, is_empty}
use clickhouse_backup.Config.Formats.{Archiver, tar, plain, get_archive_writer, get_archive_reader}
use clickhouse_backup.Remote.{BackupDestination}
use clickhouse_backup.Streams.{archive_name, unfinished, MetaFile, meta_file_name}
use clickhouse_backup.Streams.Download.{compressed_stream_download}
use clickhouse_backup.Streams.Extraction.{meta_of}
use clickhouse_backup.Streams.Termination.{
  is_finished, content_required, required_of, compressed_stream_download-is_finished,
  compressed_stream_download-cycle,
}
use clickhouse_backup.Streams.Memory.{
  Store, found_in, memory_machine, memory_disk, memory_contents, memory_codec,
  memory_disk-NeverFails, memory_contents-KeepsOnConnect,
}

abbrev bd : BackupDestination
bd = record {
  path = codes "p";
  compression_format = codes "tar";
  compression_level = pos 1;
  disable_progress_bar = true;
  backups_to_keep = pos 0;
}

-- The backup `b` requires `a`.
abbrev required_meta : Text
required_meta =
    memory_codec.encode_meta (record { required_backup = codes "a"; hardlinks = codes "x" ∷ [] })

abbrev a_content : Text
a_content = memory_codec.encode tar ((codes "x", codes "1") ∷ [])

abbrev b_content : Text
b_content = memory_codec.encode tar ((meta_file_name, required_meta) ∷ [])

abbrev chain : Store
chain = (codes "p/a.tar", a_content) ∷ (codes "p/b.tar", b_content) ∷ []

abbrev rank : Text → ℕ
rank name = if codes "p/b.tar" == archive_name bd name then 1 else 0

abbrev stored : Bool → Bool → Result Text
stored a b = found_in not_found (if a then some a_content else if b then some b_content else none)

falls_by_key :
    (a b : Bool)
    → is_empty (content_required memory_codec (ok plain) (stored a b)) ≡ false
    → rank (content_required memory_codec (ok plain) (stored a b)) < (if b then 1 else 0)
unfolding ◌==◌ path_join clickhouse_backup.Config.Formats.get_extension archive_name meta_of
falls_by_key true b h = cc
falls_by_key false true h = omega arith
falls_by_key false false h = cc

falls :
    (name : Text)
    → is_empty (required_of memory_machine memory_disk memory_codec memory_contents bd chain name)
      ≡ false
    → rank (required_of memory_machine memory_disk memory_codec memory_contents bd chain name)
      < rank name
unfolding required_of clickhouse_backup.Base.Maps.lookup get_archive_reader ◌==◌
falls name h =
    falls_by_key (codes "p/a.tar" == archive_name bd name) (codes "p/b.tar" == archive_name bd name)
      h

below : rank (codes "b") < 2
unfolding ◌==◌ path_join clickhouse_backup.Config.Formats.get_extension archive_name
below = omega arith

compressed_stream_download-is_finished_example :
    is_finished (
      compressed_stream_download memory_machine memory_disk memory_codec memory_contents 2 bd
        (codes "b")
        (codes "/c")
        ([], chain))
    ≡ true
compressed_stream_download-is_finished_example =
    compressed_stream_download-is_finished memory_machine memory_disk memory_codec memory_contents
      bd memory_contents-KeepsOnConnect rank chain falls 2 (codes "b") (codes "/c") [] chain
      (λ key. refl) below

abbrev cyclic_meta : MetaFile
cyclic_meta = record { required_backup = codes "b"; hardlinks = codes "x" ∷ [] }

abbrev cyclic : Store
cyclic =
    (
      codes "p/b.tar",
      memory_codec.encode tar ((meta_file_name, memory_codec.encode_meta cyclic_meta) ∷ []),
    )
    ∷ []

compressed_stream_download-cycle_example :
    compressed_stream_download memory_machine memory_disk memory_codec memory_contents 5 bd
      (codes "b")
      (codes "/c")
      ([], cyclic)
    ≡ unfinished
unfolding clickhouse_backup.Base.Maps.lookup ◌==◌ archive_name path_join
    clickhouse_backup.Config.Formats.get_extension get_archive_reader meta_of
compressed_stream_download-cycle_example =
    compressed_stream_download-cycle memory_machine memory_disk memory_codec memory_contents bd
      memory_disk-NeverFails (codes "b") cyclic
      (record { size = 15; name = codes "p/b.tar"; last_modified = 0 })
      (memory_codec.encode tar ((meta_file_name, memory_codec.encode_meta cyclic_meta) ∷ [])) plain
      ((meta_file_name, memory_codec.encode_meta cyclic_meta) ∷ []) cyclic_meta refl refl refl refl
      refl refl refl refl 5 (codes "/c") []
