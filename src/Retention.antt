-- ===== src/Retention.antt =====
-- The retention rule of pkg/chbackup/utils.go: `Backup` and `GetBackupsToDelete`.
pub mod Oldest
use clickhouse_backup.Base.{
  ℕ, Text, Bool, Option, none, some, List, [], ltb, length, drop, ℤ, pos, negsuc, ltb_ℤ,
  if◌then◌else◌,
}
use clickhouse_backup.Base.Sorting.{sort_stable}

-- A date is an instant, in nanoseconds.
pub record Backup : Type 0 where
  pub name : Text
  pub size : ℕ
  pub date : ℕ

-- `backups[i].Date.After(backups[j].Date)`
abbrev pub date_after : Backup → Backup → Bool
date_after a b = ltb b.date a.date

-- `backups[i].Date.Before(backups[j].Date)`
abbrev pub date_before : Backup → Backup → Bool
date_before a b = ltb a.date b.date

-- `backups[keep:]`, where `none` is the panic on a negative bound.
abbrev slice_from : List Backup → ℤ → Option (List Backup)
slice_from backups (pos keep) = some (drop keep backups)
slice_from backups (negsuc n) = none

-- Go sorts the caller's slice in place; no caller reads it again.
unfoldable pub get_backups_to_delete : List Backup → ℤ → Option (List Backup)
unfolding sort_stable
get_backups_to_delete backups keep =
    if ltb_ℤ keep (pos (length backups))
    then slice_from (sort_stable date_after backups) keep
    else some []
