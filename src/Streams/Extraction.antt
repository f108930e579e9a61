-- ===== src/Streams/Extraction.antt =====
-- What `CompressedStreamDownload` of pkg/chbackup/backup_destination.go extracts from an archive.
use clickhouse_backup.Base.{
  Text, ◌==◌, ◌≡◌, refl, sym, ap, ◌∙◌, Bool, true, false, Option, none, some, List, [], ◌∷◌, ◌⊎◌,
  any, All, NodupBy, Result, ok, err, Error, is_not_exist, arith, Bool-cases, inl, inr,
  if◌then◌else◌, ◌>>=◌,
}
use clickhouse_backup.Base.Paths.{path_join}
use clickhouse_backup.Local.{Machine, FileInfo}
use clickhouse_backup.Files.{Disk}
use clickhouse_backup.Streams.{Codec, Entry, MetaFile, meta_file_name}
use clickhouse_backup.Streams.Download.{
  make_dir, write_entry, if_absent, after_meta, after_write, extract,
}

-- The machine where a directory or a file can always be made.
pub record NeverFails (L : Machine) (D : Disk L) : Type 0 where
  pub mkdir_all-none : (path : Text) (s : L.State) → (D.mkdir_all path s).1 ≡ none
  pub create_file-none :
      (path content : Text) (s : L.State) → (D.create_file path content s).1 ≡ none

-- What the making of a directory or a file does to the reading of files, where no file has two names.
pub record FileLaws (L : Machine) (D : Disk L) : Type 0 where
  pub read_file-create_file :
      (path content : Text) (s : L.State)
      → (D.create_file path content s).1 ≡ none
      → D.read_file (D.create_file path content s).0 path ≡ ok content
  pub read_file-create_other :
      (path content other : Text) (s : L.State)
      → (other == path) ≡ false
      → (D.create_file path content s).1 ≡ none
      → D.read_file (D.create_file path content s).0 other ≡ D.read_file s other
  pub read_file-mkdir_all :
      (path other : Text) (s : L.State)
      → D.read_file (D.mkdir_all path s).0 other ≡ D.read_file s other

-- The `metafile` after the loop, if nothing fails.
unfoldable pub meta_of : Codec → List Entry → MetaFile → Result MetaFile
meta_of C [] meta = ok meta
meta_of C ((name, content) ∷ entries) meta =
    let rest = meta_of C entries meta in
    let read = C.decode_meta content meta >>= meta_of C entries in
    if name == meta_file_name then read else rest

abbrev pub destination : Text → Entry → Text
destination local e = path_join (local ∷ e.0 ∷ [])

-- One round of the loop that ends well: its rest starts with another `metafile`, or it starts after a
-- file has been written.
round-cases :
    {S : Type 0} (is_meta : Bool) (decoded : Result MetaFile) (written : S × Option Error)
    (rest : MetaFile → S → S × Result MetaFile) (meta m : MetaFile) (s s' : S)
    → (if is_meta
        then after_meta decoded s (λ meta'. rest meta' s)
        else after_write written (λ s₁. rest meta s₁))
      ≡ (s', ok m)
    → ((is_meta ≡ true) × (meta' : MetaFile) × (decoded ≡ ok meta') × (rest meta' s ≡ (s', ok m)))
      ⊎ ((is_meta ≡ false) × (written.1 ≡ none) × (rest meta written.0 ≡ (s', ok m)))
round-cases true (ok meta') written rest meta m s s' h = inl (refl, meta', refl, h)
round-cases true (err e) written rest meta m s s' h = absurd (ground (arith, h))
round-cases false decoded (s₁, none) rest meta m s s' h = inr (refl, refl, h)
round-cases false decoded (s₁, some e) rest meta m s s' h = absurd (ground (arith, h))

-- One round of a loop that cannot fail to write.
round-ends :
    {S : Type 0} (is_meta : Bool) (decoded : Result MetaFile) (written : S × Option Error)
    (rest : MetaFile → S → S × Result MetaFile) (read : MetaFile → Result MetaFile)
    (meta : MetaFile) (s : S)
    → ((meta' : MetaFile) (s' : S) → (rest meta' s').1 ≡ read meta')
    → written.1 ≡ none
    → (if is_meta
        then after_meta decoded s (λ meta'. rest meta' s)
        else after_write written (λ s₁. rest meta s₁)).1
      ≡ (if is_meta then decoded >>= read else read meta)
round-ends true (ok meta') written rest read meta s same fine = same meta' s
round-ends true (err e) written rest read meta s same fine = refl
round-ends false decoded (s₁, none) rest read meta s same fine = same meta s₁
round-ends false decoded (s₁, some e) rest read meta s same fine = cc

if_absent-eq :
    {S A : Type 0} (f : S → A) (found : Result FileInfo) (made s : S)
    → f made ≡ f s
    → f (if_absent found made s) ≡ f s
if_absent-eq f (ok info) made s same = refl
if_absent-eq f (err e) made s same = elim (Bool-cases (is_not_exist e)) [
  | inl absent ↦ rw absent same
  | inr other ↦ rw other refl
]

module _ (L : Machine) (D : Disk L) (C : Codec) (local : Text) where
  -- Where the extraction ends well, the `metafile` is that of the archive.
  pub extract-meta_of :
      (entries : List Entry) (ending : Option Error) (meta m : MetaFile) (s s' : L.State)
      → extract L D C local entries ending meta s ≡ (s', ok m)
      → meta_of C entries meta ≡ ok m
  unfolding extract meta_of
  extract-meta_of [] none meta m s s' h = ground (arith, h)
  extract-meta_of [] (some e) meta m s s' h = absurd (ground (arith, h))
  extract-meta_of ((name, content) ∷ entries) ending meta m s s' h =
      elim (round-cases (name == meta_file_name) (C.decode_meta content meta)
        (write_entry L D C local (name, content) s) (extract L D C local entries ending) meta m s s'
        h) [
          | inl (is_meta, meta', decoded, rest) ↦
              rw (is_meta, decoded) (extract-meta_of entries ending meta' m s s' rest)
          | inr (is_file, written, rest) ↦
              rw is_file (extract-meta_of entries ending meta m _ s' rest)
        ]

  -- Where nothing fails, the extraction ends as the reading of the `metafile`.
  pub extract-NeverFails :
      NeverFails L D
      → (entries : List Entry) (meta : MetaFile) (s : L.State)
      → (extract L D C local entries none meta s).1 ≡ meta_of C entries meta
  unfolding extract meta_of write_entry
  extract-NeverFails N [] meta s = refl
  extract-NeverFails N ((name, content) ∷ entries) meta s =
      round-ends (name == meta_file_name) (C.decode_meta content meta)
        (write_entry L D C local (name, content) s) (extract L D C local entries none)
        (meta_of C entries) meta s (extract-NeverFails N entries) (N.create_file-none _ _ _)

  module _ (F : FileLaws L D) where
    pub make_dir-read_file :
        (dir other : Text) (s : L.State)
        → D.read_file (make_dir L D C dir s) other ≡ D.read_file s other
    unfolding make_dir
    make_dir-read_file dir other s =
        if_absent-eq (λ t. D.read_file t other) (L.stat s dir) _ s
          (F.read_file-mkdir_all dir other s)

    write_entry-other :
        (e : Entry) (other : Text) (s : L.State)
        → (other == destination local e) ≡ false
        → (write_entry L D C local e s).1 ≡ none
        → D.read_file (write_entry L D C local e s).0 other ≡ D.read_file s other
    unfolding write_entry
    write_entry-other e other s differs fine =
        F.read_file-create_other _ _ other _ differs fine ∙ make_dir-read_file _ other s

    write_entry-own :
        (e : Entry) (s : L.State)
        → (write_entry L D C local e s).1 ≡ none
        → D.read_file (write_entry L D C local e s).0 (destination local e) ≡ ok e.1
    unfolding write_entry
    write_entry-own e s fine = F.read_file-create_file _ _ _ fine

    -- An extraction leaves the files that it does not write.
    pub extract-other :
        (other : Text) (entries : List Entry) (ending : Option Error) (meta m : MetaFile)
        (s s' : L.State)
        → any entries (λ e. other == destination local e) ≡ false
        → extract L D C local entries ending meta s ≡ (s', ok m)
        → D.read_file s' other ≡ D.read_file s other
    unfolding extract
    extract-other other [] none meta m s s' new h = ap (λ r. D.read_file r.0 other) (sym h)
    extract-other other [] (some e) meta m s s' new h = absurd (ground (arith, h))
    extract-other other (e ∷ entries) ending meta m s s' new h =
        elim (round-cases (e.0 == meta_file_name) (C.decode_meta e.1 meta)
          (write_entry L D C local e s) (extract L D C local entries ending) meta m s s' h) [
            | inl (is_meta, meta', decoded, rest) ↦
                extract-other other entries ending meta' m s s' (ground arith) rest
            | inr (is_file, written, rest) ↦
                extract-other other entries ending meta m _ s' (ground arith) rest
                ∙ write_entry-other e other s (ground arith) written
          ]

    -- After an extraction without an error every file of the archive but `meta.json` has its
    -- content, if no two of them have the same place.
    pub extract-own :
        (entries : List Entry) (ending : Option Error) (meta m : MetaFile) (s s' : L.State)
        → NodupBy (λ e f. destination local e == destination local f) entries
        → extract L D C local entries ending meta s ≡ (s', ok m)
        → All
            (λ e. (e.0 == meta_file_name) ≡ false → D.read_file s' (destination local e) ≡ ok e.1)
            entries
    unfolding extract
    extract-own [] ending meta m s s' distinct h = tt
    extract-own (e ∷ entries) ending meta m s s' (new, distinct) h =
        elim (round-cases (e.0 == meta_file_name) (C.decode_meta e.1 meta)
          (write_entry L D C local e s) (extract L D C local entries ending) meta m s s' h) [
            | inl (is_meta, meta', decoded, rest) ↦ (
              λ is_file. absurd (ground (arith, is_meta, is_file)),
              extract-own entries ending meta' m s s' distinct rest,
            )
            | inr (is_file, written, rest) ↦ (
              λ _.
                  extract-other (destination local e) entries ending meta m _ s' new rest
                  ∙ write_entry-own e s written,
              extract-own entries ending meta m _ s' distinct rest,
            )
          ]
