-- ===== src/Operations/Creation.antt =====
-- How `CreateBackup` of pkg/chbackup/backup.go ends.
use clickhouse_backup.Base.{
  List, map, ◌++◌, Bool, false, codes, unknown_clickhouse_data_path, Text, ◌≡◌, ◌⊎◌, true, Option,
  none, some, [], ◌∷◌, Error, is_not_exist, Result, ok, err,
}
use clickhouse_backup.Base.Steps.{explain, Turns}
use clickhouse_backup.Config.{Config}
use clickhouse_backup.Local.{Machine, FileInfo, backup_path, remove_old_backups_local}
use clickhouse_backup.Files.{Disk, move_shadow}
use clickhouse_backup.Clickhouse.{Connection}
use clickhouse_backup.Clickhouse.Interfaces.{walk_schema, freezer_of}
use clickhouse_backup.Freeze.{freeze}
use clickhouse_backup.Tables.Schema.{RestoreTable, parse_schema_pattern}
use clickhouse_backup.Streams.{Outcome, returned, or_panic}
use clickhouse_backup.Operations.{taken_error, metadata_of, copy_schema, shadow_below}

-- Nothing is at the place of the new backup.
abbrev pub is_free : Result FileInfo → Bool
is_free (ok info) = false
is_free (err e) = is_not_exist e

module _ (L : Machine) (D : Disk L) (Q : Connection L)
    (data_path : Config → L.State → Result Text) where
  abbrev pub Change : Type 0
  Change = L.State → L.State × Option Error

  -- The directory of the backup, and the freeze.
  abbrev pub first_steps : Config → Text → Text → List Change
  first_steps config backup pattern =
      (λ s. explain (codes "can't create backup") (D.mkdir_all backup s))
      ∷ freeze (freezer_of L D Q data_path config) config pattern
      ∷ []

  -- A copy of each schema, and then the frozen data, which are moved into a new directory.
  abbrev pub copy_steps : Config → Text → Text → List RestoreTable → List Change
  copy_steps config path backup schemas =
      map (copy_schema L D config (metadata_of path) backup) schemas
      ++ (D.mkdir_all (shadow_below backup)
          ∷ move_shadow L D (shadow_below path) (shadow_below backup)
          ∷ [])

  abbrev pub schemas_of : Text → Text → L.State → Result (List RestoreTable)
  schemas_of path pattern s =
      parse_schema_pattern (metadata_of path) pattern
        (walk_schema L D Q data_path (metadata_of path) s)

  -- The making of a backup, up to the first error, and how it ends.
  pub data Made (config : Config) (path backup pattern : Text) (s : L.State)
      : Outcome L.State → Type 0 where
    not_frozen :
        {s₁ : L.State} {e : Error}
        → Turns (λ f. f) (first_steps config backup pattern) s (s₁, some e)
        → Made config path backup pattern s (returned s₁ (some e))
    no_schemas :
        {s₁ : L.State} {e : Error}
        → Turns (λ f. f) (first_steps config backup pattern) s (s₁, none)
        → schemas_of path pattern s₁ ≡ err e
        → Made config path backup pattern s (returned s₁ (some e))
    not_copied :
        {s₁ s₂ : L.State} {schemas : List RestoreTable} {e : Error}
        → Turns (λ f. f) (first_steps config backup pattern) s (s₁, none)
        → schemas_of path pattern s₁ ≡ ok schemas
        → Turns (λ f. f) (copy_steps config path backup schemas) s₁ (s₂, some e)
        → Made config path backup pattern s (returned s₂ (some e))
    made :
        {s₁ s₂ : L.State} {schemas : List RestoreTable}
        → Turns (λ f. f) (first_steps config backup pattern) s (s₁, none)
        → schemas_of path pattern s₁ ≡ ok schemas
        → Turns (λ f. f) (copy_steps config path backup schemas) s₁ (s₂, none)
        → Made config path backup pattern s (or_panic (remove_old_backups_local L config s₂))

  -- How the creation of a backup ends.
  abbrev pub EndsCreated : Config → Text → Text → Text → L.State → Outcome L.State → Type 0
  EndsCreated config path name pattern s outcome =
      ((path ≡ []) × (outcome ≡ returned s (some unknown_clickhouse_data_path)))
      ⊎ ((is_free (L.stat s (backup_path path name)) ≡ false)
          × (outcome ≡ returned s (some (taken_error (backup_path path name)))))
      ⊎ ((is_free (L.stat s (backup_path path name)) ≡ true)
          × Made config path (backup_path path name) pattern s outcome)
