-- ===== src/Local.antt =====
-- The backups on disk: `ListLocalBackups`, `GetLocalBackup`, `RemoveBackupLocal` and
-- `RemoveOldBackupsLocal` of pkg/chbackup/backup.go, over any file system.
pub mod Removal
use clickhouse_backup.Base.{
  ℕ, Text, codes, ◌==◌, Bool, true, false, ◌||◌, Option, none, some, List, [], ◌∷◌, ◌++◌, any, pos,
  ℤ, ltb_ℤ, Error, unknown_clickhouse_data_path, errorf, Result, ok, err, if◌then◌else◌,
}
use clickhouse_backup.Base.Paths.{path_join, is_empty}
use clickhouse_backup.Base.Sorting.{sort_stable}
use clickhouse_backup.Config.{Config}
use clickhouse_backup.Retention.{Backup, date_before, get_backups_to_delete}

-- What `os.Stat` returns.
pub record FileInfo : Type 0 where
  pub is_dir : Bool
  pub mod_time : ℕ

-- The machine: its file system, and the database, which is asked for the data path by `GetDataPath`:
-- `none` is the panic of that at an answer without a row, or with too short a path. `read_names` is
-- `os.Open` with `Readdirnames`.
pub record Machine : Type 1 where
  pub State : Type 0
  pub ask_data_path : Config → State → Option (Result Text)
  pub read_names : State → Text → Result (List Text)
  pub stat : State → Text → Result FileInfo
  pub remove_all : State → Text → State × Option Error

abbrev pub backup_word : Text
backup_word = codes "backup"

-- The directory of a backup.
abbrev pub backup_path : Text → Text → Text
backup_path data_path name = path_join (data_path ∷ backup_word ∷ name ∷ [])

-- Every error of `GetDataPath` becomes an empty path.
abbrev pub answered_path : Option (Result Text) → Option Text
answered_path none = none
answered_path (some (ok path)) = some path
answered_path (some (err e)) = some []

-- What follows a call that may panic, of which `panicked` is the result.
abbrev pub unless_panic {ℓ κ} : {A : Type ℓ} {B : Type κ} → Option A → B → (A → B) → B
unless_panic none panicked next = panicked
unless_panic (some a) panicked next = next a

module _ (L : Machine) where
  -- `none` is a panic. The program asks again at each call; the state is the same.
  unfoldable pub get_data_path : Config → L.State → Option Text
  get_data_path config s =
      if is_empty config.click_house.data_path
      then answered_path (L.ask_data_path config s)
      else some config.click_house.data_path

  abbrev pub add_info : Text → Result FileInfo → List Backup → List Backup
  add_info name (err e) result = result
  add_info name (ok info) result =
      if info.is_dir
      then record { name = name; size = 0; date = info.mod_time } ∷ result
      else result

  -- The loop of `ListLocalBackups`: what is no directory is passed over.
  unfoldable pub stat_all : Text → List Text → L.State → List Backup
  stat_all backups_path [] s = []
  stat_all backups_path (name ∷ names) s =
      add_info name (L.stat s (path_join (backups_path ∷ name ∷ [])))
        (stat_all backups_path names s)

  abbrev pub list_below : L.State → Text → Result (List Backup)
  list_below s data_path =
      let backups_path = path_join (data_path ∷ backup_word ∷ []) in
      if is_empty data_path
      then err unknown_clickhouse_data_path
      else elim (L.read_names s backups_path) [
        | err e ↦ err e
        | ok names ↦ ok (sort_stable date_before (stat_all backups_path names s))
      ]

  -- Here and below the outer `none` is a panic.
  unfoldable pub list_local_backups : Config → L.State → Option (Result (List Backup))
  list_local_backups config s =
      unless_panic (get_data_path config s) none (λ path. some (list_below s path))

  abbrev pub not_found_locally : Text → Error
  not_found_locally name = errorf (codes "backup '" ++ name ++ codes "' not found")

  abbrev pub named_among : Text → Result (List Backup) → Option Error
  named_among name (err e) = some e
  named_among name (ok backups) =
      if any backups (λ b. b.name == name) then none else some (not_found_locally name)

  unfoldable pub get_local_backup : Config → Text → L.State → Option (Option Error)
  get_local_backup config name s =
      if is_empty name
      then some (some (errorf (codes "backup name is required")))
      else unless_panic (list_local_backups config s) none (λ r. some (named_among name r))

  abbrev pub remove_named : Text → L.State → Text → Result (List Backup) → L.State × Option Error
  remove_named name s data_path (err e) = (s, some e)
  remove_named name s data_path (ok backups) =
      if is_empty data_path
      then (s, some unknown_clickhouse_data_path)
      else if any backups (λ b. b.name == name)
      then L.remove_all s (backup_path data_path name)
      else (s, some (not_found_locally name))

  unfoldable pub remove_backup_local : Config → Text → L.State → Option (L.State × Option Error)
  remove_backup_local config name s =
      unless_panic (list_local_backups config s) none (λ r.
        unless_panic (get_data_path config s) none (λ path. some (remove_named name s path r)))

  -- The errors of `os.RemoveAll` are dropped.
  unfoldable pub remove_paths : Text → List Backup → L.State → L.State
  remove_paths data_path [] s = s
  remove_paths data_path (b ∷ backups) s =
      remove_paths data_path backups ((L.remove_all s (backup_path data_path b.name)).0)

  abbrev pub remove_excess :
      ℤ → L.State → Text → Result (List Backup) → Option (L.State × Option Error)
  remove_excess keep s data_path (err e) = some (s, some e)
  remove_excess keep s data_path (ok backups) =
      if is_empty data_path
      then some (s, some unknown_clickhouse_data_path)
      else elim (get_backups_to_delete backups keep) [
        | none ↦ none
        | some old ↦ some (remove_paths data_path old s, none)
      ]

  unfoldable pub remove_old_backups_local : Config → L.State → Option (L.State × Option Error)
  remove_old_backups_local config s =
      let keep = config.general.backups_to_keep_local in
      if ltb_ℤ keep (pos 1)
      then some (s, none)
      else unless_panic (list_local_backups config s) none
          (λ r. unless_panic (get_data_path config s) none (λ path. remove_excess keep s path r))
