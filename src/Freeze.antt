-- ===== src/Freeze.antt =====
-- `Freeze` of pkg/chbackup/backup.go, over any database and file system.
pub mod Guard
use clickhouse_backup.Base.{
  Text, codes, Bool, true, false, Option, none, some, List, [], ◌∷◌, ◌++◌, Error, error_text,
  errorf, is_not_exist, Result, ok, err, if◌then◌else◌,
}
use clickhouse_backup.Base.Paths.{path_join, is_empty}
use clickhouse_backup.Config.{Config}
use clickhouse_backup.Tables.{Table, parse_table_pattern_for_freeze, mark_skipped}

-- What `Freeze` uses: `Connect`, `GetDataPath`, `ioutil.ReadDir` by names, the query of `GetTables`, and
-- `FreezeTable`.
pub record Freezer : Type 1 where
  pub State : Type 0
  pub connect : Config → State → Option Error
  pub data_path : Config → State → Result Text
  pub read_dir : Text → State → Result (List Text)
  pub rows : State → Result (List Table)
  pub freeze_table : Table → State → State × Option Error

abbrev pub shadow_of : Text → Text
shadow_of data_path = path_join (data_path ∷ codes "shadow" ∷ [])

abbrev path_error : Text → Error
path_error cause = errorf (
    codes "can't get data path from clickhouse: "
    ++ cause
    ++ codes "\nyou can set data_path in config file")

-- Why the directory `shadow` does not allow a freeze.
abbrev pub shadow_error : Text → Result (List Text) → Option Error
shadow_error path (ok []) = none
shadow_error path (ok (name ∷ names)) =
    some (errorf (codes "'" ++ path ++ codes "' is not empty, execute 'clean' command first"))
shadow_error path (err e) =
    if is_not_exist e
    then none
    else some (errorf (codes "can't read " ++ path ++ codes " directory: " ++ error_text e))

module _ (F : Freezer) where
  unfoldable pub freeze_all : List Table → F.State → F.State × Option Error
  freeze_all [] s = (s, none)
  freeze_all (t ∷ tables) s =
      let rest = freeze_all tables s in
      let (s', failure) = F.freeze_table t s in
      let frozen = elim failure as (λ x. F.State × Option Error) [
        | some e ↦ (s', some e)
        | none ↦ freeze_all tables s'
      ] in
      if t.skip then rest else frozen

  abbrev freeze_chosen : List Table → F.State → F.State × Option Error
  freeze_chosen [] s =
      (s, some (errorf (codes "there are no tables in clickhouse, create something to freeze")))
  freeze_chosen (t ∷ tables) s = freeze_all (t ∷ tables) s

  abbrev freeze_rows : Config → Text → Result (List Table) → F.State → F.State × Option Error
  freeze_rows config pattern (err e) s =
      (s, some (errorf (codes "can't get tables from clickhouse: " ++ error_text e)))
  freeze_rows config pattern (ok rows) s =
      freeze_chosen
        (parse_table_pattern_for_freeze (mark_skipped config.click_house.skip_tables rows) pattern)
        s

  abbrev freeze_at : Config → Text → Text → F.State → F.State × Option Error
  freeze_at config pattern data_path s =
      elim (shadow_error (shadow_of data_path) (F.read_dir (shadow_of data_path) s)) [
        | some e ↦ (s, some e)
        | none ↦ freeze_rows config pattern (F.rows s) s
      ]

  abbrev freeze_path : Config → Text → Result Text → F.State → F.State × Option Error
  freeze_path config pattern (err e) s = (s, some (path_error (error_text e)))
  freeze_path config pattern (ok []) s = (s, some (path_error (codes "<nil>")))
  freeze_path config pattern (ok (c ∷ path)) s = freeze_at config pattern (c ∷ path) s

  unfoldable pub freeze : Config → Text → F.State → F.State × Option Error
  freeze config pattern s = elim (F.connect config s) [
    | some e ↦ (s, some (errorf (codes "can't connect to clickhouse: " ++ error_text e)))
    | none ↦ freeze_path config pattern (F.data_path config s) s
  ]
