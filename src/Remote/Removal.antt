-- ===== src/Remote/Removal.antt =====
-- What `RemoveBackup` and `RemoveOldBackups` delete.
use clickhouse_backup.Base.{
  Text, ◌==◌, ==_iff, ==_refl, ◌≡◌, refl, ap, ◌∙◌, Bool, true, false, not, ◌&&◌, none, some, List,
  [], ◌∷◌, ◌++◌, map, any, keep_if, has_prefix, has_prefix-append, ok, err, arith, Option,
  Option-cases, Result-cases, ◌⊎◌, ◌≤◌, zero, suc, min, length, All, Perm, pos_part, negsuc,
  keep_if-true, keep_if-All, All-any_self, All-map, inl, inr, ℤ, pos, ltb_ℤ, Error,
}
use clickhouse_backup.Base.Paths.{path_join}
use clickhouse_backup.Base.Steps.{Turns, all_done, goes_on, stops}
use clickhouse_backup.Retention.{Backup}
use clickhouse_backup.Retention.Oldest.{get_backups_to_delete-oldest}
use clickhouse_backup.Remote.{
  RemoteFile, RemoteStorage, BackupDestination, Files, objects_of, delete_files, remove_backup,
  remove_backups, backup_list, remove_old_backups,
}
use clickhouse_backup.Remote.Memory.{other_than, DeletesOnly}

-- A file whose name begins like the backup's own path.
abbrev pub begins_as : BackupDestination → Text → RemoteFile → Bool
begins_as bd name o = has_prefix o.name (path_join (bd.path ∷ name ∷ []))

abbrev pub named_in : List Text → RemoteFile → Bool
named_in keys o = any keys (λ key. o.name == key)

keep_if-keep_if :
    (key : Text) (keys : List Text) (objects : List RemoteFile)
    → keep_if (λ o. not (named_in keys o)) (keep_if (other_than key) objects)
      ≡ keep_if (λ o. not (named_in (key ∷ keys) o)) objects
keep_if-keep_if key keys [] = refl
keep_if-keep_if key keys (o ∷ objects) = ground (arith, keep_if-keep_if key keys objects)

named_in-map :
    (q : Text → Bool) (o : RemoteFile) (objects : List RemoteFile)
    → named_in (map (λ x. x.name) (keep_if (λ x. q x.name) objects)) o
      ≡ (q o.name && any objects (λ x. o.name == x.name))
named_in-map q o [] = ground arith
named_in-map q o (x ∷ objects) =
    ground (arith, ==_iff o.name x.name, ap q {x = o.name} {y = x.name}, named_in-map q o objects)

keep_if-objects_of :
    (bd : BackupDestination) (name : Text) (objects : List RemoteFile)
    → keep_if (λ o. not (named_in (objects_of bd name objects) o)) objects
      ≡ keep_if (λ o. not (begins_as bd name o)) objects
unfolding objects_of
keep_if-objects_of bd name objects =
    let q : Text → Bool = λ n. has_prefix n (path_join (bd.path ∷ name ∷ [])) in
    keep_if-All _ _ objects (
      All-map (λ o. any objects (λ x. o.name == x.name) ≡ true)
        (λ o.
          not (named_in (map (λ x. x.name) (keep_if (λ x. q x.name) objects)) o)
          ≡ not (begins_as bd name o))
        objects (λ o h. ground (arith, named_in-map q o objects, h))
        (All-any_self (λ o x. o.name == x.name) (λ o. ==_refl o.name) objects))

module _ (S : RemoteStorage) (L : DeletesOnly S) where
  walk-delete_files :
      (keys : List Text) (s s' : S.State) (path : Text) (objects : List RemoteFile)
      → delete_files S keys s ≡ (s', none)
      → S.walk s path ≡ (objects, none)
      → S.walk s' path ≡ (keep_if (λ o. not (named_in keys o)) objects, none)
  unfolding delete_files
  walk-delete_files [] s s' path objects d w = rw (keep_if-true objects) (ground arith)
  walk-delete_files (key ∷ keys) s s' path objects d w =
      elim (Option-cases (S.delete_file s key).1) [
        | inr (e, failed) ↦ absurd (ground arith)
        | inl fine ↦
            let next : S.State = (S.delete_file s key).0 in
            let shown = L.walk-delete_file s next key path objects (ground arith) w in
            let rest =
              walk-delete_files keys next s' path (keep_if (other_than key) objects) (ground arith)
                shown in
            rest ∙ ap (λ l. (l, none)) (keep_if-keep_if key keys objects)
      ]

  -- On a storage that deletes what it is told to: after a `RemoveBackup` without an error, a walk
  -- shows the files that it showed before, in the same order, less those whose name begins with
  -- the backup's path.
  pub walk-remove_backup :
      (bd : BackupDestination) (name : Text) (s s' : S.State) (objects : List RemoteFile)
      → S.walk s bd.path ≡ (objects, none)
      → remove_backup S bd name s ≡ (s', none)
      → S.walk s' bd.path ≡ (keep_if (λ o. not (begins_as bd name o)) objects, none)
  unfolding remove_backup
  walk-remove_backup bd name s s' objects w d =
      walk-delete_files (objects_of bd name objects) s s' bd.path objects (ground arith) w
      ∙ ap (λ l. (l, none)) (keep_if-objects_of bd name objects)

  any-keep_if-not :
      (p q : RemoteFile → Bool)
      → ((o : RemoteFile) → q o ≡ true → p o ≡ true)
      → (objects : List RemoteFile) → any (keep_if (λ o. not (p o)) objects) q ≡ false
  any-keep_if-not p q h [] = refl
  any-keep_if-not p q h (o ∷ objects) = ground (arith, h o, any-keep_if-not p q h objects)

  -- On a storage that deletes what it is told to: after a `RemoveBackup` without an error no file
  -- is left whose name is the backup's path followed by any suffix, so the files of a backup
  -- whose name extends the removed one's are gone too.
  pub remove_backup_extended :
      (bd : BackupDestination) (name suffix : Text) (s s' : S.State) (objects : List RemoteFile)
      → S.walk s bd.path ≡ (objects, none)
      → remove_backup S bd name s ≡ (s', none)
      → any (S.walk s' bd.path).0 (λ o. o.name == path_join (bd.path ∷ name ∷ []) ++ suffix) ≡ false
  remove_backup_extended bd name suffix s s' objects w d =
      let path : Text = path_join (bd.path ∷ name ∷ []) in
      rw (walk-remove_backup bd name s s' objects w d) (
        any-keep_if-not (begins_as bd name) (λ o. o.name == path ++ suffix)
          (λ o e. rw ((==_iff o.name (path ++ suffix)).0 e) (has_prefix-append path suffix))
          objects)

module _ (S : RemoteStorage) (order : Files → Files) where
  remove_backups-Turns :
      (bd : BackupDestination) (backups : List Backup) (s : S.State)
      → Turns (λ b. remove_backup S bd b.name) backups s (remove_backups S bd backups s)
  unfolding remove_backups
  remove_backups-Turns bd [] s = all_done
  remove_backups-Turns bd (b ∷ backups) s =
      turned (remove_backup S bd b.name s) refl (remove_backups-Turns bd backups)
    where
      turned :
          (r : S.State × Option Error)
          → remove_backup S bd b.name s ≡ r
          → ((s' : S.State)
              → Turns (λ x. remove_backup S bd x.name) backups s' (remove_backups S bd backups s'))
          → Turns
              (λ x. remove_backup S bd x.name)
              (b ∷ backups)
              s
              (elim r.1 [ some e ↦ (r.0, some e) | none ↦ remove_backups S bd backups r.0 ])
      turned (s', none) h rest = goes_on h (rest s')
      turned (s', some e) h rest = stops h

  -- `RemoveOldBackups` does nothing for a `keep` below 1. Otherwise it passes an error of the
  -- listing on, or else it runs `RemoveBackup` for those listed backups that are in excess of
  -- `keep`, one by one up to the first error, with which it ends. None of them is newer than one
  -- that it leaves, and it never panics.
  pub remove_old_backups-oldest :
      (bd : BackupDestination) (keep : ℤ) (s : S.State)
      → ((ltb_ℤ keep (pos 1) ≡ true) × (remove_old_backups S order bd keep s ≡ some (s, none)))
        ⊎ ((e : Error) × (backup_list S order bd s ≡ err e)
            × (remove_old_backups S order bd keep s ≡ some (s, some e)))
        ⊎ ((backups kept deleted : List Backup) × (backup_list S order bd s ≡ ok backups)
            × Perm (kept ++ deleted) backups
            × (length kept ≡ min (pos_part keep) (length backups))
            × All (λ old. All (λ new. old.date ≤ new.date) kept) deleted
            × (end : S.State × Option Error) × (remove_old_backups S order bd keep s ≡ some end)
            × Turns (λ b. remove_backup S bd b.name) deleted s end)
  unfolding remove_old_backups
  remove_old_backups-oldest bd (negsuc n) s = inl (ground arith, ground arith)
  remove_old_backups-oldest bd (pos zero) s = inl (ground arith, ground arith)
  remove_old_backups-oldest bd (pos (suc n)) s = elim (Result-cases (backup_list S order bd s)) [
    | inr (e, failed) ↦ inr (inl (e, failed, ground arith))
    | inl (backups, listed) ↦
        let (kept, deleted, selected, same, count, older) =
          get_backups_to_delete-oldest backups (suc n) in
        inr (
          inr (
            backups,
            kept,
            deleted,
            listed,
            same,
            count,
            older,
            remove_backups S bd deleted s,
            ground arith,
            remove_backups-Turns bd deleted s,
          ))
  ]
