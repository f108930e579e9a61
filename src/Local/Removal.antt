-- ===== src/Local/Removal.antt =====
-- Which backups are listed on disk, and which are removed.
use clickhouse_backup.Base.{
  zero, suc, ◌≤◌, ◌≡◌, refl, ◌∙◌, ◌⊎◌, inl, inr, Text, ◌==◌, Bool, true, false, ◌&&◌, ◌||◌, none,
  some, Option, List, [], ◌∷◌, ◌++◌, any, pos, negsuc, pos_part, ltb_ℤ, ℤ, Error, Result, ok, err,
  arith, Option-cases, Result-cases, Perm, All, length, min,
}
use clickhouse_backup.Base.Paths.{path_join, is_empty}
use clickhouse_backup.Base.Steps.{Turns, all_done, goes_on}
use clickhouse_backup.Base.Perms.{any-sort_stable}
use clickhouse_backup.Base.Sorting.{IsSorted, sort_stable-IsSorted}
use clickhouse_backup.Config.{Config}
use clickhouse_backup.Retention.{Backup, date_before}
use clickhouse_backup.Retention.Oldest.{date_before-IsLess, get_backups_to_delete-oldest}
use clickhouse_backup.Local.{
  FileInfo, Machine, backup_word, backup_path, add_info, get_data_path, stat_all, list_below,
  list_local_backups, remove_paths, remove_old_backups_local,
}

module _ (L : Machine) where
  abbrev pub is_directory : Result FileInfo → Bool
  is_directory (ok info) = info.is_dir
  is_directory (err e) = false

  -- The name `name` in the directory `path`.
  abbrev pub is_backup_in : L.State → Text → Text → Text → Bool
  is_backup_in s path name n = n == name && is_directory (L.stat s (path_join (path ∷ n ∷ [])))

  any-add_info :
      (name n : Text) (info : Result FileInfo) (result : List Backup)
      → any (add_info L n info result) (λ b. b.name == name)
        ≡ (any result (λ b. b.name == name) || (n == name && is_directory info))
  any-add_info name n (err e) result = ground arith
  any-add_info name n (ok info) result = ground arith

  any-stat_all :
      (path name : Text) (names : List Text) (s : L.State)
      → any (stat_all L path names s) (λ b. b.name == name) ≡ any names (is_backup_in s path name)
  unfolding stat_all
  any-stat_all path name [] s = refl
  any-stat_all path name (n ∷ names) s = ground (
    arith,
    any-add_info name n (L.stat s (path_join (path ∷ n ∷ []))) (stat_all L path names s),
    any-stat_all path name names s,
  )

  -- With a data path and a directory of backups that can be read, `ListLocalBackups` succeeds
  -- with a list sorted by date, and a name is in it exactly if it is one of the directory's names
  -- and is itself a directory.
  pub list_local_backups-directories :
      (config : Config) (s : L.State) (name data_path : Text) (names : List Text)
      → get_data_path L config s ≡ some data_path
      → is_empty data_path ≡ false
      → L.read_names s (path_join (data_path ∷ backup_word ∷ [])) ≡ ok names
      → (backups : List Backup) × (list_local_backups L config s ≡ some (ok backups))
        × IsSorted date_before backups
        × (any backups (λ b. b.name == name)
            ≡ any names (is_backup_in s (path_join (data_path ∷ backup_word ∷ [])) name))
  unfolding list_local_backups
  list_local_backups-directories config s name data_path names asked known read =
      let path : Text = path_join (data_path ∷ backup_word ∷ []) in
      (
        _,
        rw (asked, known, read) refl,
        sort_stable-IsSorted date_before date_before-IsLess (stat_all L path names s),
        any-sort_stable (λ b. b.name == name) date_before (stat_all L path names s)
            ∙ any-stat_all path name names s,
      )

  -- A list of backups has a data path.
  listed_below :
      (s : L.State) (data_path : Text) (backups : List Backup)
      → list_below L s data_path ≡ ok backups
      → is_empty data_path ≡ false
  listed_below s [] backups e = absurd (ground (arith, e))
  listed_below s (c ∷ path) backups e = refl

  remove_paths-Turns :
      (data_path : Text) (backups : List Backup) (s : L.State)
      → Turns
          (λ b s'. ((L.remove_all s' (backup_path data_path b.name)).0, none))
          backups
          s
          (remove_paths L data_path backups s, none)
  unfolding remove_paths
  remove_paths-Turns data_path [] s = all_done
  remove_paths-Turns data_path (b ∷ backups) s =
      goes_on refl
        (remove_paths-Turns data_path backups (L.remove_all s (backup_path data_path b.name)).0)

  -- The four ways in which the removal of old backups ends, by the number to keep.
  abbrev pub EndsOldest : ℤ → Config → L.State → Type 0
  EndsOldest keep config s =
      ((ltb_ℤ keep (pos 1) ≡ true) × (remove_old_backups_local L config s ≡ some (s, none)))
      ⊎ ((get_data_path L config s ≡ none) × (remove_old_backups_local L config s ≡ none))
      ⊎ ((e : Error) × (list_local_backups L config s ≡ some (err e))
          × (remove_old_backups_local L config s ≡ some (s, some e)))
      ⊎ ((data_path : Text) × (backups kept deleted : List Backup) × (get_data_path L config s
            ≡ some data_path)
          × (list_local_backups L config s ≡ some (ok backups))
          × Perm (kept ++ deleted) backups
          × (length kept ≡ min (pos_part keep) (length backups))
          × All (λ old. All (λ new. old.date ≤ new.date) kept) deleted
          × (end : L.State × Option Error) × (remove_old_backups_local L config s ≡ some end)
          × Turns (λ b s'. ((L.remove_all s' (backup_path data_path b.name)).0, none)) deleted s
              end)

  ends_oldest :
      (keep : ℤ) (config : Config) (s : L.State)
      → config.general.backups_to_keep_local ≡ keep
      → EndsOldest keep config s
  unfolding remove_old_backups_local list_local_backups
  ends_oldest (negsuc n) config s k = inl (ground arith, ground (arith, k))
  ends_oldest (pos zero) config s k = inl (ground arith, ground (arith, k))
  ends_oldest (pos (suc n)) config s k = elim (Option-cases (get_data_path L config s)) [
    | inl lost ↦ inr (inl (lost, rw (lost, k) (ground arith)))
    | inr (path, asked) ↦ elim (Result-cases (list_below L s path)) [
      | inr (e, failed) ↦
          inr (inr (inl (e, rw (asked, failed) refl, rw (asked, failed, k) (ground arith))))
      | inl (backups, listed) ↦
          let (kept, deleted, selected, same, count, older) =
            get_backups_to_delete-oldest backups (suc n) in
          inr (
            inr (
              inr (
                path,
                backups,
                kept,
                deleted,
                asked,
                rw (asked, listed) refl,
                same,
                count,
                older,
                (remove_paths L path deleted s, none),
                rw (asked, listed, listed_below s path backups listed, k, selected) (ground arith),
                remove_paths-Turns path deleted s,
              )))
    ]
  ]

  -- `RemoveOldBackupsLocal` does nothing where fewer than one backup is to be kept, and it panics
  -- where the question for the data path does. Otherwise it passes an error of the listing on, or
  -- else it removes the paths of those listed backups that are in excess, one by one and whatever
  -- the errors. None of them is newer than one that it leaves.
  pub remove_old_backups_local-oldest :
      (config : Config) (s : L.State) → EndsOldest config.general.backups_to_keep_local config s
  remove_old_backups_local-oldest config s =
      ends_oldest config.general.backups_to_keep_local config s refl
