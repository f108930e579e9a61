-- ===== src/Streams/Truncation.antt =====
-- An upload in which a file cannot be read, in `CompressedStreamUpload` of
-- pkg/chbackup/backup_destination.go.
use clickhouse_backup.Base.{
  Text, ◌≡◌, refl, sym, ap, ◌∙◌, Bool, true, false, Option, none, some, List, [], ◌∷◌, ◌++◌, Result,
  ok, err, Error, arith, Option-cases, inl, inr, if◌then◌else◌,
}
use clickhouse_backup.Config.Formats.{Archiver, get_archive_writer}
use clickhouse_backup.Local.{Machine}
use clickhouse_backup.Files.{Disk, Walked, is_regular, regular}
use clickhouse_backup.Remote.{RemoteStorage, BackupDestination}
use clickhouse_backup.Streams.{Codec, archive_name, returned}
use clickhouse_backup.Streams.Upload.{
  Packed, unless_failed, add_entry, relative_to, is_same, pack_read, pack_walked, pack,
  packed_entries, stream, diff_error, archive_error, compressed_stream_upload,
}

abbrev fail_with : Error → Packed → Packed
fail_with e P = record { entries = P.entries; links = P.links; failure = some e }

-- One file, in front of a walk that fails and of the same walk without the failure.
file-fail_with :
    (C : Codec) (z : Archiver) (e : Error) (is_file same : Bool) (failure : Option Error)
    (name : Text) (r : Result Text) (rest : Packed)
    → let file : Packed → Packed =
        λ P. unless_failed failure (if is_file then pack_read C z same name r P else P) in
      ((file rest).failure ≡ none)
      → (rest.failure ≡ none) × (file (fail_with e rest) ≡ fail_with e (file rest))
file-fail_with C z e is_file same (some e') name r rest h = cc
file-fail_with C z e false same none name r rest h = (h, refl)
file-fail_with C z e true same none name (err e') rest h = cc
file-fail_with C z e true true none name (ok content) rest h = (h, refl)
file-fail_with C z e true false none name (ok content) rest h =
    elim (Option-cases (C.write_error z (name, content))) [
      | inr (e', failed) ↦ absurd (
          ground (
            arith,
            ap (λ x. (unless_failed x (add_entry (name, content) rest)).failure) (sym failed) ∙ h,
          ))
      | inl fine ↦ (
        ap (λ x. (unless_failed x (add_entry (name, content) rest)).failure) (sym fine) ∙ h,
        rw fine refl,
      )
    ]

module _ (L : Machine) (D : Disk L) (C : Codec) (z : Archiver) (local diff : Text)
    (s : L.State) where
  -- What is walked behind a file that cannot be read is not packed.
  pack-append :
      (e : Error) (path : Text) (before after : List Walked)
      → D.read_file s path ≡ err e
      → (pack L D C z local diff before s).failure ≡ none
      → pack L D C z local diff
          (before ++ (record { path = path; kind = regular; failure = none } ∷ after))
          s
        ≡ fail_with e (pack L D C z local diff before s)
  unfolding pack
  pack-append e path [] after unread fine = rw unread refl
  pack-append e path (w ∷ before) after unread fine =
      let rest : Packed = pack L D C z local diff before s in
      let name : Text = relative_to local w.path in
      let (fine', step) =
        file-fail_with C z e (is_regular w.kind) (is_same L D C diff w.path name s) w.failure name
          (D.read_file s w.path) rest fine in
      ap (pack_walked L D C z local diff w s) (pack-append e path before after unread fine') ∙ step

module _ (L : Machine) (D : Disk L) (C : Codec) (S : RemoteStorage) (bd : BackupDestination) where
  -- If a regular file of the backup cannot be read, the upload, whose checks pass, puts the
  -- archive of the files that it packed before it, and ends with the result of `PutFile`: with a
  -- storage that takes the archive it reports a success.
  pub upload-unread :
      (local remote diff : Text) (l : L.State) (r : S.State) (z : Archiver) (e : Error)
      (path : Text) (before after : List Walked)
      → archive_error L D C S (S.get_file r (archive_name bd remote)) ≡ none
      → diff_error L D C diff l ≡ none
      → get_archive_writer bd.compression_format bd.compression_level ≡ ok z
      → C.create_error z ≡ none
      → D.walk l local ≡ before ++ (record { path = path; kind = regular; failure = none } ∷ after)
      → D.read_file l path ≡ err e
      → (pack L D C z local diff before l).failure ≡ none
      → let put : S.State × Option Error =
          S.put_file r
            (archive_name bd remote)
            (C.encode z (pack L D C z local diff before l).entries) in
        compressed_stream_upload L D C S bd local remote diff l r ≡ returned (l, put.0) put.1
  unfolding compressed_stream_upload stream packed_entries
  upload-unread local remote diff l r z e path before after a d w c walked unread fine =
      let packed =
        ap (λ ws. pack L D C z local diff ws l) walked
        ∙ pack-append L D C z local diff l e path before after unread fine in
      rw (a, d, w, c, packed) refl
