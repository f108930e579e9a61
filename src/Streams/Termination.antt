-- ===== src/Streams/Termination.antt =====
-- When `CompressedStreamDownload` of pkg/chbackup/backup_destination.go ends, which calls itself for the
-- backup that an archive requires.
use clickhouse_backup.Base.{
  ℕ, zero, suc, ◌<◌, Text, ◌≡◌, refl, sym, ap, ◌∙◌, Bool, true, false, Option, none, some, List, [],
  ◌∷◌, Result, ok, err, Error, arith, is_exist, Bool-cases, inl, inr,
}
use clickhouse_backup.Base.Paths.{is_empty}
use clickhouse_backup.Config.Formats.{ArchiveKind, get_archive_reader}
use clickhouse_backup.Local.{Machine}
use clickhouse_backup.Files.{Disk}
use clickhouse_backup.Remote.{RemoteStorage, RemoteFile, BackupDestination}
use clickhouse_backup.Streams.{
  Codec, Entry, MetaFile, Outcome, archive_name, unless_error, unless_err, returned, panics,
  unfinished,
}
use clickhouse_backup.Streams.Download.{
  no_meta, extract, link_then, after_required, after_extract, require, read_archive,
  compressed_stream_download,
}
use clickhouse_backup.Streams.Extraction.{NeverFails, meta_of, extract-meta_of, extract-NeverFails}

abbrev pub is_finished : {S : Type 0} → Outcome S → Bool
is_finished (returned s e) = true
is_finished panics = true
is_finished unfinished = false

unless_error-is_finished :
    {S : Type 0} (e : Option Error) (s : S) (rest : Outcome S)
    → is_finished rest ≡ true
    → is_finished (unless_error e s rest) ≡ true
unless_error-is_finished (some e) s rest h = refl
unless_error-is_finished none s rest h = h

unless_err-is_finished {ℓ} :
    {A : Type ℓ} {S : Type 0} (r : Result A) (s : S) (rest : A → Outcome S)
    → ((a : A) → r ≡ ok a → is_finished (rest a) ≡ true)
    → is_finished (unless_err r s rest) ≡ true
unless_err-is_finished (err e) s rest h = refl
unless_err-is_finished (ok a) s rest h = h a refl

-- The backup that an archive requires: none, if it cannot be read.
abbrev pub meta_required : Result MetaFile → Text
meta_required (err e) = []
meta_required (ok meta) = meta.required_backup

abbrev pub content_required : Codec → Result ArchiveKind → Result Text → Text
content_required C (ok kind) (ok content) =
    meta_required (meta_of C (C.decode kind content).0 no_meta)
content_required C _ _ = []

-- A connection changes nothing of what the storage holds.
pub record KeepsOnConnect (S : RemoteStorage) : Type 0 where
  pub get_file_reader-connect :
      (r : S.State) (key : Text) → S.get_file_reader (S.connect r).0 key ≡ S.get_file_reader r key

rank-required :
    (rank : Text → ℕ) (required : Text) (bound c : ℕ) (next : Text)
    → required ≡ c ∷ next
    → (is_empty required ≡ false → rank required < bound)
    → rank (c ∷ next) < bound
rank-required rank [] bound c next e h = cc
rank-required rank (d ∷ required) bound c next e h = rw (sym e) (h refl)

module _ (L : Machine) (D : Disk L) (C : Codec) (S : RemoteStorage) (bd : BackupDestination) where
  -- The backup that a stored backup requires.
  unfoldable pub required_of : S.State → Text → Text
  required_of r name =
      content_required C (get_archive_reader bd.compression_format)
        (S.get_file_reader r (archive_name bd name))

  link_then-is_finished :
      (local : Text) (meta : MetaFile) (both : L.State × S.State)
      → is_finished (link_then L D C S local meta both) ≡ true
  link_then-is_finished local meta (l, r) = refl

  after_required-is_finished :
      (local : Text) (meta : MetaFile) (o : Outcome (L.State × S.State))
      → is_finished o ≡ true
      → is_finished (after_required L D C S local meta o) ≡ true
  after_required-is_finished local meta panics h = refl
  after_required-is_finished local meta unfinished h = h
  after_required-is_finished local meta (returned both none) h = refl
  after_required-is_finished local meta (returned both (some e)) h =
      elim (Bool-cases (is_exist e)) [ inl exists ↦ rw exists refl | inr other ↦ rw other refl ]

  require-is_finished :
      (next : Text → Text → L.State × S.State → Outcome (L.State × S.State)) (local : Text)
      (meta : MetaFile) (both : L.State × S.State) (required : Text)
      → ((c : ℕ) (name : Text) (target : Text)
          → required ≡ c ∷ name
          → is_finished (next (c ∷ name) target both) ≡ true)
      → is_finished (require L D C S next local meta both required) ≡ true
  require-is_finished next local meta both [] h = link_then-is_finished local meta both
  require-is_finished next local meta both (c ∷ name) h =
      after_required-is_finished local meta _ (h c name _ refl)

  -- An inner download is begun for the required backup only.
  read_archive-is_finished :
      (next : Text → Text → L.State × S.State → Outcome (L.State × S.State)) (local : Text)
      (kind : Result ArchiveKind) (content : Text) (both : L.State × S.State)
      → ((c : ℕ) (name : Text) (target : Text) (l : L.State)
          → content_required C kind (ok content) ≡ c ∷ name
          → is_finished (next (c ∷ name) target (l, both.1)) ≡ true)
      → is_finished (read_archive L D C S next local kind content both) ≡ true
  read_archive-is_finished next local (err e) content both h = refl
  read_archive-is_finished next local (ok kind) content (l, r) h =
      let read : L.State × Result MetaFile =
        extract L D C local (C.decode kind content).0 (C.decode kind content).1 no_meta l in
      unless_err-is_finished read.1 (read.0, r)
        (λ meta. after_extract L D C S next local meta (read.0, r))
        (λ meta e.
          require-is_finished next local meta (read.0, r) meta.required_backup
            (λ c name target e'. h c name target read.0 (
              ap meta_required (
                extract-meta_of L D C local (C.decode kind content).0 (C.decode kind content).1
                  no_meta meta l read.0 (ap (λ x. (read.0, x)) e))
              ∙ e')))

  -- A download ends if its fuel is above the rank of its backup, provided that connecting changes
  -- no stored archive, and that the rank of a backup is above that of the backup that its archive
  -- requires, if it requires one. So a download of a chain of backups always ends.
  pub compressed_stream_download-is_finished :
      (K : KeepsOnConnect S) (rank : Text → ℕ) (stored : S.State)
      → ((name : Text)
          → is_empty (required_of stored name) ≡ false
          → rank (required_of stored name) < rank name)
      → (fuel : ℕ) (name local : Text) (l : L.State) (r : S.State)
      → ((key : Text) → S.get_file_reader r key ≡ S.get_file_reader stored key)
      → rank name < fuel
      → is_finished (compressed_stream_download L D C S fuel bd name local (l, r)) ≡ true
  unfolding compressed_stream_download required_of
  compressed_stream_download-is_finished K rank stored falls zero name local l r same enough =
      absurd (omega (arith, enough))
  compressed_stream_download-is_finished K rank stored falls (suc fuel) name local l r same enough =
      let made : L.State × Option Error = D.mkdir_all local l in
      let connected : S.State × Option Error = S.connect r in
      let same' : (key : Text) → S.get_file_reader connected.0 key ≡ S.get_file_reader stored key =
        λ key. K.get_file_reader-connect r key ∙ same key in
      unless_error-is_finished made.1 (made.0, r) _
        (unless_error-is_finished connected.1 (made.0, connected.0) _
          (unless_err-is_finished (S.get_file connected.0 (archive_name bd name)) _ _ (λ file _.
            unless_err-is_finished (S.get_file_reader connected.0 (archive_name bd name)) _ _
              (λ content e.
                read_archive-is_finished (compressed_stream_download L D C S fuel bd) local
                  (get_archive_reader bd.compression_format) content (made.0, connected.0)
                  (λ c next target l' e'.
                    let required =
                      ap (content_required C (get_archive_reader bd.compression_format))
                        (sym (same' (archive_name bd name)) ∙ e)
                      ∙ e' in
                    let below =
                      rank-required rank (required_of stored name) (rank name) c next required
                        (falls name) in
                    compressed_stream_download-is_finished K rank stored falls fuel (c ∷ next)
                      target l' connected.0 same' (omega (arith, below, enough)))))))

  -- If the archive of a backup, which the storage has and which can be read, requires that same
  -- backup, and nothing fails in making directories and files, no number of rounds is enough for
  -- its download: it goes on and on.
  pub compressed_stream_download-cycle :
      (N : NeverFails L D) (name : Text) (stored : S.State) (file : RemoteFile) (content : Text)
      (kind : ArchiveKind) (entries : List Entry) (meta : MetaFile)
      → S.connect stored ≡ (stored, none)
      → S.get_file stored (archive_name bd name) ≡ ok file
      → S.get_file_reader stored (archive_name bd name) ≡ ok content
      → get_archive_reader bd.compression_format ≡ ok kind
      → C.decode kind content ≡ (entries, none)
      → meta_of C entries no_meta ≡ ok meta
      → meta.required_backup ≡ name
      → is_empty name ≡ false
      → (fuel : ℕ) (local : Text) (l : L.State)
      → compressed_stream_download L D C S fuel bd name local (l, stored) ≡ unfinished
  unfolding compressed_stream_download
  compressed_stream_download-cycle N name stored file content kind entries meta c f g k d m q full
        zero local l =
      refl
  compressed_stream_download-cycle N [] stored file content kind entries meta c f g k d m q full
        (suc fuel) local l =
      cc
  compressed_stream_download-cycle N (b ∷ name) stored file content kind entries meta c f g k d m q
        full (suc fuel) local l =
      let made = N.mkdir_all-none local l in
      let read = extract-NeverFails L D C local N entries no_meta (D.mkdir_all local l).0 in
      let again =
        compressed_stream_download-cycle N (b ∷ name) stored file content kind entries meta c f g k
          d m q full fuel in
      rw (made, c, f, g, k, d, read, m, q, again) refl
