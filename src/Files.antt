-- ===== src/Files.antt =====
-- What the operations do with files: `cleanDir`, `isClickhouseShadow`, `moveShadow` and `copyFile` of
-- pkg/chbackup/utils.go, over any file system.
use clickhouse_backup.Base.{
  Text, codes, ◌==◌, Bool, true, false, ◌&&◌, ◌||◌, Option, none, some, List, [], ◌∷◌, join, split,
  trim, trim_prefix, Error, Result, ok, err, atoi,
}
use clickhouse_backup.Base.Paths.{slash, path_join, path_dir}
use clickhouse_backup.Base.Steps.{◌then_do◌, for_each}
use clickhouse_backup.Local.{Machine}

-- What `filepath.Walk` hands to its callback: a path with its kind, and the error of reading it, if any.
-- A file that vanishes during the walk, for which it hands out no information, is left out.
pub data Kind : Type 0 where
  directory : Kind
  regular : Kind
  special : Kind

pub record Walked : Type 0 where
  pub path : Text
  pub kind : Kind
  pub failure : Option Error

-- The rest of the file system. `create_file` is `os.Create` with `io.Copy` and `Close`, `read_file` is
-- `os.Open` with all that can be read, `same_file` is `os.SameFile` on what `os.Stat` finds at both
-- paths, and false where it finds nothing. `write_temp` is the making of a temporary file, which is
-- gone again in the end.
pub record Disk (L : Machine) : Type 0 where
  pub walk : L.State → Text → List Walked
  pub read_file : L.State → Text → Result Text
  pub same_file : L.State → Text → Text → Bool
  pub mkdir_all : Text → L.State → L.State × Option Error
  pub create_file : Text → Text → L.State → L.State × Option Error
  pub rename : Text → Text → L.State → L.State × Option Error
  pub link : Text → Text → L.State → L.State × Option Error
  pub chown : Text → L.State → L.State × Option Error
  pub write_temp : L.State → Option Error

abbrev pub is_directory : Kind → Bool
is_directory directory = true
is_directory _ = false

abbrev pub is_regular : Kind → Bool
is_regular regular = true
is_regular _ = false

-- A result whose value is not kept.
abbrev pub failed {ℓ} : {A : Type ℓ} → Result A → Option Error
failed (ok a) = none
failed (err e) = some e

-- The third part of a text split in three: `none` where there are fewer.
abbrev pub third_part : List Text → Option Text
third_part (first ∷ second ∷ third ∷ parts) = some (join slash (third ∷ parts))
third_part _ = none

module _ (L : Machine) where
  unfoldable pub clean_dir : Text → L.State → L.State × Option Error
  clean_dir dir s = elim (L.read_names s dir) [
    | err e ↦ (s, some e)
    | ok names ↦ for_each (λ name s'. L.remove_all s' (path_join (dir ∷ name ∷ []))) names s
  ]

  abbrev pub is_number : Text → Bool
  is_number name = elim (atoi name) [ none ↦ false | some n ↦ true ]

  abbrev pub all_numbers : List Text → Bool
  all_numbers [] = true
  all_numbers (name ∷ names) =
      (name == codes "increment.txt" || is_number name) && all_numbers names

  unfoldable pub is_clickhouse_shadow : Text → L.State → Bool
  is_clickhouse_shadow path s = elim (L.read_names s path) [
    | err e ↦ false
    | ok names ↦ all_numbers names
  ]

module _ (L : Machine) (D : Disk L) where
  abbrev pub move_by_kind : Kind → Text → Text → L.State → L.State × Option Error
  move_by_kind directory path destination s = D.mkdir_all destination s
  move_by_kind regular path destination s = D.rename path destination s
  move_by_kind special path destination s = (s, none)

  -- The callback of the walk, which does not look at the error that it is given.
  abbrev pub move_walked : Text → Text → Walked → L.State → L.State × Option Error
  move_walked shadow_path backup_path w s =
      elim (third_part (split b'/' (trim b'/' (trim_prefix w.path shadow_path)))) [
        | none ↦ (s, none)
        | some below ↦ move_by_kind w.kind w.path (path_join (backup_path ∷ below ∷ [])) s
      ]

  unfoldable pub move_shadow : Text → Text → L.State → L.State × Option Error
  move_shadow shadow_path backup_path s =
      for_each (move_walked shadow_path backup_path) (D.walk s shadow_path) s
      then_do clean_dir L shadow_path

  unfoldable pub copy_file : Text → Text → L.State → L.State × Option Error
  copy_file source destination s = D.mkdir_all (path_dir destination) s then_do (λ s'.
      elim (D.read_file s' source) [
        | err e ↦ (s', some e)
        | ok content ↦ D.create_file destination content s'
      ])
