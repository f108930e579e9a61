-- ===== src/Remote/Listing.antt =====
-- Which backups `BackupList` lists, whatever the order of its map.
use clickhouse_backup.Base.{
  Text, codes, ◌==◌, ==_iff, ◌≡◌, refl, ◌∙◌, ap, Bool, false, ◌&&◌, ◌||◌, none, List, [], ◌∷◌, any,
  keep_if, has_prefix, Perm, ok, arith, Bool-cases, inl, inr,
}
use clickhouse_backup.Base.Maps.{
  lookup, lookup-map_set, NodupKeys, map_set-NodupKeys, any-lookup, holds,
}
use clickhouse_backup.Base.Sorting.{IsSorted, sort_stable-IsSorted}
use clickhouse_backup.Retention.Oldest.{date_before-IsLess}
use clickhouse_backup.Base.Perms.{any-perm, any-sort_stable, any-map, any-keep_if}
use clickhouse_backup.Retention.{Backup, date_before}
use clickhouse_backup.Remote.{
  RemoteFile, RemoteStorage, BackupDestination, ClickhouseBackup, Files, or_zero, is_archive,
  key_parts, add_archive, add_folder, add_parts, add_file, add_files, is_complete, to_backup,
  list_entries, backup_list, archive_entry, folder_entry,
}

-- The elements of a name that lies in the part `part` of the backup `name`.
abbrev pub lies_in : Text → Text → List Text → Bool
lies_in name part (first ∷ second ∷ _) = first == name && second == part
lies_in name part _ = false

-- A file below `path` in the part `part` of the backup `name`.
abbrev pub is_part_of : Text → Text → Text → RemoteFile → Bool
is_part_of path name part o = has_prefix o.name path && lies_in name part (key_parts path o.name)

module _ (name : Text) (folder : is_archive name ≡ false) where
  lookup-add_archive :
      (o : RemoteFile) (first : Text) (files : Files)
      → lookup name (add_archive o first files) ≡ lookup name files
  unfolding add_archive
  lookup-add_archive o first files = elim (Bool-cases (is_archive first)) [
    | inr e ↦ rw (e, add_archive)
    | inl e ↦
        rw (e, add_archive)
          (ground (
            arith,
            ==_iff first name,
            ap is_archive {x = first} {y = name},
            lookup-map_set first name (archive_entry o) files,
          ))
  ]

  -- One file of the walk: its effect on what the map holds at `name`.
  entry-add_parts :
      (o : RemoteFile) (parts : List Text) (files : Files)
      → let e : ClickhouseBackup = or_zero (lookup name files) in
        let e' : ClickhouseBackup = or_zero (lookup name (add_parts o parts files)) in
        (e.tar ≡ false)
        → (e'.metadata ≡ (e.metadata || lies_in name (codes "metadata") parts))
          × (e'.shadow ≡ (e.shadow || lies_in name (codes "shadow") parts))
          × (e'.tar ≡ false)
  unfolding add_parts add_folder
  entry-add_parts o [] files h = ground arith
  entry-add_parts o (first ∷ []) files h = ground (arith, lookup-add_archive o first files)
  entry-add_parts o (first ∷ part ∷ parts) files h =
      let files' : Files = add_archive o first files in
      ground (
        arith,
        ==_iff first name,
        lookup-add_archive o first files,
        lookup-map_set first name (folder_entry part (or_zero (lookup first files'))) files',
      )

  entry-add_file :
      (path : Text) (files : Files) (o : RemoteFile)
      → let e : ClickhouseBackup = or_zero (lookup name files) in
        let e' : ClickhouseBackup = or_zero (lookup name (add_file path files o)) in
        (e.tar ≡ false)
        → (e'.metadata ≡ (e.metadata || is_part_of path name (codes "metadata") o))
          × (e'.shadow ≡ (e.shadow || is_part_of path name (codes "shadow") o))
          × (e'.tar ≡ false)
  unfolding add_file
  entry-add_file path files o h = ground (arith, entry-add_parts o (key_parts path o.name) files h)

  -- The whole walk.
  entry-add_files :
      (path : Text) (objects : List RemoteFile) (files : Files)
      → let e : ClickhouseBackup = or_zero (lookup name files) in
        let e' : ClickhouseBackup = or_zero (lookup name (add_files path objects files)) in
        (e.tar ≡ false)
        → (e'.metadata ≡ (e.metadata || any objects (is_part_of path name (codes "metadata"))))
          × (e'.shadow ≡ (e.shadow || any objects (is_part_of path name (codes "shadow"))))
          × (e'.tar ≡ false)
  unfolding add_files
  entry-add_files path [] files h = ground arith
  entry-add_files path (o ∷ objects) files h =
      let first = entry-add_file path files o h in
      let rest = entry-add_files path objects (add_file path files o) first.2 in
      ground (arith, first, rest)

add_archive-NodupKeys :
    (o : RemoteFile) (first : Text) (files : Files)
    → NodupKeys files
    → NodupKeys (add_archive o first files)
unfolding add_archive
add_archive-NodupKeys o first files u =
    ground (arith, map_set-NodupKeys first (archive_entry o) files u)

add_parts-NodupKeys :
    (o : RemoteFile) (parts : List Text) (files : Files)
    → NodupKeys files
    → NodupKeys (add_parts o parts files)
unfolding add_parts add_folder
add_parts-NodupKeys o [] files u = u
add_parts-NodupKeys o (first ∷ []) files u = add_archive-NodupKeys o first files u
add_parts-NodupKeys o (first ∷ part ∷ parts) files u =
    map_set-NodupKeys first _ _ (add_archive-NodupKeys o first files u)

add_file-NodupKeys :
    (path : Text) (files : Files) (o : RemoteFile)
    → NodupKeys files
    → NodupKeys (add_file path files o)
unfolding add_file
add_file-NodupKeys path files o u =
    ground (arith, add_parts-NodupKeys o (key_parts path o.name) files u)

pub add_files-NodupKeys :
    (path : Text) (objects : List RemoteFile) (files : Files)
    → NodupKeys files
    → NodupKeys (add_files path objects files)
unfolding add_files
add_files-NodupKeys path [] files u = u
add_files-NodupKeys path (o ∷ objects) files u =
    add_files-NodupKeys path objects (add_file path files o) (add_file-NodupKeys path files o u)

-- A name is listed when its entry is complete, whatever the order of the map.
pub any-list_entries :
    (order : Files → Files) (name : Text) (files : Files)
    → Perm (order files) files
    → NodupKeys files
    → any (list_entries order files) (λ b. b.name == name) ≡ holds is_complete (lookup name files)
unfolding list_entries
any-list_entries order name files r u =
    any-sort_stable (λ x. x.name == name) date_before _
    ∙ any-map to_backup (λ x. x.name == name) (keep_if (λ x. is_complete x.1) (order files))
    ∙ any-keep_if (λ x. x.0 == name) (λ x. is_complete x.1) (order files)
    ∙ any-perm _ r
    ∙ any-lookup name is_complete files u

-- If the walk succeeds, `BackupList` succeeds with a list sorted by date, and a name without an
-- archive's suffix is in it exactly if the walk showed a file in its part `metadata` and one in
-- its part `shadow`, whatever the order in which the map is visited.
pub backup_list-folder :
    (S : RemoteStorage) (order : Files → Files) (bd : BackupDestination) (s : S.State)
    (objects : List RemoteFile) (name : Text)
    → ((files : Files) → Perm (order files) files)
    → S.walk s bd.path ≡ (objects, none)
    → is_archive name ≡ false
    → (backups : List Backup) × (backup_list S order bd s ≡ ok backups)
      × IsSorted date_before backups
      × (any backups (λ b. b.name == name) ≡ (
          any objects (is_part_of bd.path name (codes "metadata"))
          && any objects (is_part_of bd.path name (codes "shadow"))))
unfolding backup_list
backup_list-folder S order bd s objects name visits walked folder =
    let files : Files = add_files bd.path objects [] in
    let entry = entry-add_files name folder bd.path objects [] (unfold lookup in refl) in
    (
      list_entries order files,
      ground arith,
      unfold list_entries in sort_stable-IsSorted date_before date_before-IsLess _,
      unfold lookup in
          ground (
            arith,
            any-list_entries order name files (visits files)
                (add_files-NodupKeys bd.path objects [] tt),
            entry,
          ),
    )
