-- ===== src/Streams/Roundtrip.antt =====
-- A backup that is uploaded and downloaded again: `CompressedStreamUpload` and
-- `CompressedStreamDownload` of pkg/chbackup/backup_destination.go together.
use clickhouse_backup.Base.{
  ℕ, suc, ℤ, Text, ◌==◌, ==→eq, ◌&&◌, ◌≡◌, refl, sym, ap, ◌∙◌, Bool, true, false, Option, none,
  some, List, [], ◌∷◌, any, All, All-map, NodupBy, Result, ok, err, Error, arith, Bool-cases, inl,
  inr, if◌then◌else◌,
}
use clickhouse_backup.Base.Paths.{path_join}
use clickhouse_backup.Base.Steps.{for_each}
use clickhouse_backup.Config.Formats.{Archiver, ArchiveKind, get_archive_reader, get_archive_writer}
use clickhouse_backup.Local.{Machine}
use clickhouse_backup.Files.{Disk, Walked, is_regular}
use clickhouse_backup.Remote.{RemoteStorage, RemoteFile, BackupDestination}
use clickhouse_backup.Streams.{Codec, Entry, MetaFile, archive_name, meta_file_name, returned}
use clickhouse_backup.Streams.Upload.{
  Packed, unless_failed, add_entry, pack_read, pack, relative_to, diff_error, archive_error, stream,
  packed_entries, compressed_stream_upload,
}
use clickhouse_backup.Streams.Packing.{pack-IsPacked, is_entry}
use clickhouse_backup.Streams.Download.{no_meta, extract, compressed_stream_download}
use clickhouse_backup.Streams.Extraction.{
  NeverFails, FileLaws, meta_of, extract-NeverFails, extract-own, destination,
}

-- What is written is read back, as long as the format is the same.
pub record CodecLaws (C : Codec) : Type 0 where
  pub create_error-none : (z : Archiver) → C.create_error z ≡ none
  pub decode-encode :
      (format : Text) (level : ℤ) (z : Archiver) (kind : ArchiveKind) (entries : List Entry)
      → get_archive_writer format level ≡ ok z
      → get_archive_reader format ≡ ok kind
      → C.decode kind (C.encode z entries) ≡ (entries, none)

-- A storage that holds what is put into it, and that can always be connected to.
pub record HoldsFiles (S : RemoteStorage) : Type 0 where
  pub connect-none : (r : S.State) → S.connect r ≡ (r, none)
  pub get_file-put_file :
      (r r' : S.State) (key content : Text)
      → S.put_file r key content ≡ (r', none)
      → (file : RemoteFile) × (S.get_file r' key ≡ ok file)
  pub get_file_reader-put_file :
      (r r' : S.State) (key content : Text)
      → S.put_file r key content ≡ (r', none)
      → S.get_file_reader r' key ≡ ok content

pub meta_of-files :
    (C : Codec) (entries : List Entry) (meta : MetaFile)
    → any entries (λ e. e.0 == meta_file_name) ≡ false
    → meta_of C entries meta ≡ ok meta
unfolding meta_of
meta_of-files C [] meta h = refl
meta_of-files C (e ∷ entries) meta h =
    let is_file : (e.0 == meta_file_name) ≡ false = ground arith in
    rw is_file (meta_of-files C entries meta (ground arith))

-- What holds of every entry but `meta.json` holds of each.
pub entry-All :
    (Q : Text → Text → Type 0) (name content : Text) (entries : List Entry)
    → is_entry name content entries ≡ true
    → any entries (λ e. e.0 == meta_file_name) ≡ false
    → All (λ e. (e.0 == meta_file_name) ≡ false → Q e.0 e.1) entries
    → Q name content
entry-All Q name content [] h new all = cc
entry-All Q name content ((n, c) ∷ entries) h new (q, all) =
    elim (Bool-cases (n == name && c == content)) [
      | inl e ↦
          let same : n ≡ name = ==→eq n name (ground arith) in
          let same' : c ≡ content = ==→eq c content (ground arith) in
          rw (sym same, sym same') (q (ground arith))
      | inr e ↦ entry-All Q name content entries (ground arith) (ground arith) all
    ]

links-kept :
    (failure : Option Error) (P : Packed) → P.links ≡ [] → (unless_failed failure P).links ≡ []
links-kept none P h = h
links-kept (some e) P h = refl

-- Without an earlier backup nothing is set aside.
file-links :
    (C : Codec) (z : Archiver) (is_file : Bool) (failure : Option Error) (name : Text)
    (r : Result Text) (rest : Packed)
    → rest.links ≡ []
    → (unless_failed failure (if is_file then pack_read C z false name r rest else rest)).links ≡ []
file-links C z is_file (some e) name r rest h = refl
file-links C z false none name r rest h = h
file-links C z true none name (err e) rest h = refl
file-links C z true none name (ok content) rest h =
    links-kept (C.write_error z (name, content)) (add_entry (name, content) rest) h

pack-links :
    (L : Machine) (D : Disk L) (C : Codec) (z : Archiver) (local : Text) (walked : List Walked)
    (s : L.State)
    → (pack L D C z local [] walked s).links ≡ []
unfolding pack
pack-links L D C z local [] s = refl
pack-links L D C z local (w ∷ walked) s =
    file-links C z (is_regular w.kind) w.failure (relative_to local w.path) (D.read_file s w.path) _
      (pack-links L D C z local walked s)

module _ (L : Machine) (D : Disk L) (C : Codec) (S : RemoteStorage) (bd : BackupDestination) where
  -- What the upload of a backup without an earlier one puts.
  stream-files :
      (K : CodecLaws C) (z : Archiver) (local : Text) (l : L.State)
      → (pack L D C z local [] (D.walk l local) l).failure ≡ none
      → stream L D C z local [] l ≡ C.encode z (pack L D C z local [] (D.walk l local) l).entries
  unfolding stream packed_entries
  stream-files K z local l fine =
      rw (K.create_error-none z, fine, pack-links L D C z local (D.walk l local) l) refl

  -- What the download of an archive without `meta.json` does.
  download-files :
      (K : CodecLaws C) (H : HoldsFiles S) (N : NeverFails L D) (z : Archiver) (kind : ArchiveKind)
      (remote target : Text) (r r' : S.State) (entries : List Entry)
      → get_archive_writer bd.compression_format bd.compression_level ≡ ok z
      → get_archive_reader bd.compression_format ≡ ok kind
      → any entries (λ e. e.0 == meta_file_name) ≡ false
      → S.put_file r (archive_name bd remote) (C.encode z entries) ≡ (r', none)
      → (fuel : ℕ) (l : L.State)
      → (l' : L.State) × (extract L D C target entries none no_meta (D.mkdir_all target l).0
          ≡ (l', ok no_meta))
        × (compressed_stream_download L D C S (suc fuel) bd remote target (l, r')
            ≡ returned (l', r') none)
  unfolding compressed_stream_download for_each
  download-files K H N z kind remote target r r' entries writer reader new put fuel l =
      let made = N.mkdir_all-none target l in
      let (file, found) = H.get_file-put_file r r' _ _ put in
      let content = H.get_file_reader-put_file r r' _ _ put in
      let decoded =
        K.decode-encode bd.compression_format bd.compression_level z kind entries writer reader in
      let read =
        extract-NeverFails L D C target N entries no_meta (D.mkdir_all target l).0
        ∙ meta_of-files C entries no_meta new in
      (
        (extract L D C target entries none no_meta (D.mkdir_all target l).0).0,
        ap (λ x. ((extract L D C target entries none no_meta (D.mkdir_all target l).0).0, x)) read,
        rw (made, H.connect-none r', found, content, reader, decoded, read) refl,
      )

  -- A backup without an earlier one that is uploaded can be downloaded again, into any directory of
  -- any state: the upload and the download end without an error, and then every regular file of the
  -- backup has its content below the new directory. The conditions: each file of the backup can be
  -- read and packed, none is named `meta.json`, no two have the same place in the new directory, the
  -- storage takes the archive, and the file system can make directories and files.
  pub download-upload :
      (K : CodecLaws C) (H : HoldsFiles S) (N : NeverFails L D) (F : FileLaws L D) (z : Archiver)
      (kind : ArchiveKind) (local remote target : Text) (l : L.State) (r r' : S.State)
      → get_archive_writer bd.compression_format bd.compression_level ≡ ok z
      → get_archive_reader bd.compression_format ≡ ok kind
      → archive_error L D C S (S.get_file r (archive_name bd remote)) ≡ none
      → let P : Packed = pack L D C z local [] (D.walk l local) l in
        (P.failure ≡ none)
        → any P.entries (λ e. e.0 == meta_file_name) ≡ false
        → NodupBy (λ e f. destination target e == destination target f) P.entries
        → S.put_file r (archive_name bd remote) (C.encode z P.entries) ≡ (r', none)
        → (compressed_stream_upload L D C S bd local remote [] l r ≡ returned (l, r') none)
          × ((fuel : ℕ) (l₁ : L.State)
              → (l₂ : L.State) × (compressed_stream_download L D C S
                    (suc fuel)
                    bd
                    remote
                    target
                    (l₁, r')
                  ≡ returned (l₂, r') none)
                × All
                    (λ w.
                      is_regular w.kind ≡ true
                      → (content : Text) × (D.read_file l w.path ≡ ok content)
                        × (D.read_file l₂ (path_join (target ∷ relative_to local w.path ∷ []))
                            ≡ ok content))
                    (D.walk l local))
  unfolding compressed_stream_upload diff_error
  download-upload K H N F z kind local remote target l r r' writer reader absent fine new distinct
        put =
      (
        rw (absent, writer, stream-files K z local l fine, put) refl,
        λ fuel l₁.
            let (l₂, extracted, ended) =
              download-files K H N z kind remote target r r' _ writer reader new put fuel l₁ in
            let own = extract-own L D C target F _ none no_meta no_meta _ l₂ distinct extracted in
            (
              l₂,
              ended,
              All-map _ _ (D.walk l local)
                  (λ w packed regular.
                    let (content, read, entry) = packed regular in
                    (
                      content,
                      read,
                      entry-All (λ n c. D.read_file l₂ (path_join (target ∷ n ∷ [])) ≡ ok c) _ _ _
                          entry new own,
                    ))
                  (pack-IsPacked L D C z local [] l (D.walk l local) fine),
            ),
      )
