-- ===== src/Streams/Packing.antt =====
-- What the upload's walk packs: the loop of the goroutine of `CompressedStreamUpload` of
-- pkg/chbackup/backup_destination.go.
use clickhouse_backup.Base.{
  Text, ◌==◌, ==_refl, ◌≡◌, refl, Bool, true, false, ◌&&◌, Option, none, some, List, [], ◌∷◌, sym,
  ap, ◌∙◌, All-map, any, All, Result, ok, err, Error, arith, if◌then◌else◌,
}
use clickhouse_backup.Config.Formats.{Archiver}
use clickhouse_backup.Local.{Machine}
use clickhouse_backup.Files.{Disk, Walked, is_regular}
use clickhouse_backup.Streams.{Codec, Entry}
use clickhouse_backup.Streams.Upload.{
  Packed, relative_to, is_same, unless_failed, add_entry, add_link, pack_read, pack_walked, pack,
}

-- The archive has a file of that name and content.
abbrev pub is_entry : Text → Text → List Entry → Bool
is_entry name content entries = any entries (λ (n, c). n == name && c == content)

abbrev pub is_link : Text → List Text → Bool
is_link name links = any links (λ n. n == name)

-- A file is set aside, or it is in the archive with its content.
abbrev pub is_packed : Bool → Text → Text → Packed → Bool
is_packed true name content P = is_link name P.links
is_packed false name content P = is_entry name content P.entries

-- What is packed in one stays packed in the other.
abbrev Grows : Packed → Packed → Type 0
Grows P Q =
    (same : Bool) (name content : Text)
    → is_packed same name content P ≡ true
    → is_packed same name content Q ≡ true

unless_failed-none :
    (failure : Option Error) (P : Packed)
    → (unless_failed failure P).failure ≡ none
    → unless_failed failure P ≡ P
unless_failed-none none P h = refl
unless_failed-none (some e) P h = cc

add_link-Grows : (name : Text) (P : Packed) → Grows P (add_link name P)
add_link-Grows name P true name' content h = ground (arith, h)
add_link-Grows name P false name' content h = h

add_entry-Grows : (e : Entry) (P : Packed) → Grows P (add_entry e P)
add_entry-Grows e P true name content h = h
add_entry-Grows e P false name content h = ground (arith, h)

module _ (C : Codec) (z : Archiver) where
  -- What packing a file that is read does, where it does not fail.
  pack_read-Grows :
      (same : Bool) (name : Text) (r : Result Text) (rest : Packed)
      → (pack_read C z same name r rest).failure ≡ none
      → (content : Text) × (r ≡ ok content)
        × (is_packed same name content (pack_read C z same name r rest) ≡ true)
        × (rest.failure ≡ none)
        × Grows rest (pack_read C z same name r rest)
  pack_read-Grows same name (err e) rest h = absurd (ground (arith, h))
  pack_read-Grows true name (ok content) rest h =
      (content, refl, ground (arith, ==_refl name), h, add_link-Grows name rest)
  pack_read-Grows false name (ok content) rest h =
      let e =
        unless_failed-none (C.write_error z (name, content)) (add_entry (name, content) rest) h in
      rw e (
        content,
        refl,
        ground (arith, ==_refl name, ==_refl content),
        ap (λ P. P.failure) (sym e) ∙ h,
        add_entry-Grows (name, content) rest,
      )

  file-Grows :
      (regular same : Bool) (failure : Option Error) (name : Text) (r : Result Text) (rest : Packed)
      → let P : Packed =
          unless_failed failure (if regular then pack_read C z same name r rest else rest) in
        P.failure ≡ none
        → (regular ≡ true
            → (content : Text) × (r ≡ ok content) × (is_packed same name content P ≡ true))
          × (rest.failure ≡ none)
          × Grows rest P
  file-Grows regular same (some e) name r rest h = cc
  file-Grows true same none name r rest h =
      let (content, e, new, fine, grows) = pack_read-Grows same name r rest h in
      (λ _. (content, e, new), fine, grows)
  file-Grows false same none name r rest h = (λ e. cc, h, λ same' name' content' g. g)

module _ (L : Machine) (D : Disk L) (C : Codec) (z : Archiver) (local diff : Text)
    (s : L.State) where
  -- The file is the earlier backup's and set aside, or it is in the archive with its content.
  abbrev pub IsPacked : Packed → Walked → Type 0
  IsPacked P w =
      let name = relative_to local w.path in
      is_regular w.kind ≡ true
      → (content : Text) × (D.read_file s w.path ≡ ok content)
        × (is_packed (is_same L D C diff w.path name s) name content P ≡ true)

  -- If the walk of an upload ends without an error, every regular file that it meets can be read,
  -- and is either set aside by its name, where the earlier backup has the same file, or packed
  -- into the archive by its name with its content.
  pub pack-IsPacked :
      (walked : List Walked)
      → (pack L D C z local diff walked s).failure ≡ none
      → All (IsPacked (pack L D C z local diff walked s)) walked
  unfolding pack
  pack-IsPacked [] h = tt
  pack-IsPacked (w ∷ walked) h =
      let rest : Packed = pack L D C z local diff walked s in
      let name : Text = relative_to local w.path in
      let (head, fine, grows) =
        file-Grows C z (is_regular w.kind) (is_same L D C diff w.path name s) w.failure name
          (D.read_file s w.path) rest h in
      (
        head,
        All-map (IsPacked rest) (IsPacked (pack_walked L D C z local diff w s rest)) walked
            (λ v p regular.
              let (content, e, packed) = p regular in (content, e, grows _ _ _ packed))
            (pack-IsPacked walked fine),
      )
