-- ===== src/Retention/Oldest.antt =====
-- What `GetBackupsToDelete` selects.
use mathlib.Core.List.Perm
use clickhouse_backup.Base.{
  ℕ, ◌≤◌, ◌≡◌, some, List, [], ◌++◌, Perm, arith, min, length, ◌+◌, ltb, All-map, take, drop, All,
  take-append-drop, length-take, ltb, pos, append-nil, Bool-cases, inl, inr,
}
use clickhouse_backup.Base.Sorting.{
  IsLess, IsSorted-append, sort_stable, sort_stable-perm, sort_stable-IsSorted, length-sort_stable,
}
use clickhouse_backup.Retention.{Backup, date_after, date_before, get_backups_to_delete}

pub date_after-IsLess : IsLess date_after
date_after-IsLess = record {
  asymm = λ a b h. ground arith;
  negative_trans = λ a b c p q. ground arith;
}

pub date_before-IsLess : IsLess date_before
date_before-IsLess = record {
  asymm = λ a b h. ground arith;
  negative_trans = λ a b c p q. ground arith;
}

-- For a `keep` that is not negative, `GetBackupsToDelete` returns the backups in excess of
-- `keep`: together with the others, which are as many as `keep` where there are so many, they are
-- the backups given, and none of them is newer than one of the others.
pub get_backups_to_delete-oldest :
    (backups : List Backup) (keep : ℕ)
    → (kept deleted : List Backup) × (get_backups_to_delete backups (pos keep) ≡ some deleted)
      × Perm (kept ++ deleted) backups
      × (length kept ≡ min keep (length backups))
      × All (λ old. All (λ new. old.date ≤ new.date) kept) deleted
unfolding get_backups_to_delete
get_backups_to_delete-oldest backups keep =
    elim (Bool-cases (ltb (keep + 0) (length backups + 0))) [
      | inl more ↦
          let sorted : List Backup = sort_stable date_after backups in
          let kept : List Backup = take keep sorted in
          let deleted : List Backup = drop keep sorted in
          (
            kept,
            deleted,
            rw more,
            rw take-append-drop (sort_stable-perm date_after backups),
            omega (arith, length-take keep sorted, length-sort_stable date_after backups),
            All-map _ _ deleted (λ old h. All-map _ _ kept (λ new e. ground arith) h)
                (IsSorted-append date_after kept deleted (
                  rw take-append-drop (sort_stable-IsSorted date_after date_after-IsLess backups))),
          )
      | inr fits ↦ (backups, [], rw fits, rw append-nil Perm.rfl, ground arith, tt)
    ]
