-- ===== src/Cli.antt =====
-- The commands of main.go, from the arguments that the package `urfave/cli` has read to the operations of
-- pkg/chbackup/backup.go. The texts of the help are left out.
use clickhouse_backup.Base.{
  ℕ, Text, codes, ◌==◌, Bool, Option, none, some, List, [], ◌∷◌, ◌++◌, get_elem?, Error, Result, ok,
  err, if◌then◌else◌,
}
use clickhouse_backup.Base.Paths.{is_empty}
use clickhouse_backup.Config.{Config}
use clickhouse_backup.Local.{unless_panic, Machine, remove_backup_local}
use clickhouse_backup.Files.{Disk}
use clickhouse_backup.Freeze.{freeze}
use clickhouse_backup.Restore.{restore}
use clickhouse_backup.Remote.{RemoteStorage, Files}
use clickhouse_backup.Clickhouse.{Connection}
use clickhouse_backup.Clickhouse.Saved.{Saved}
use clickhouse_backup.Clickhouse.Interfaces.{database_of, freezer_of}
use clickhouse_backup.Streams.{Codec, Outcome, returned, panics, unfinished}
use clickhouse_backup.Operations.{create_backup, clean, print_tables}
use clickhouse_backup.Operations.Printing.{print_local_backups}
use clickhouse_backup.Operations.Transfer.{
  is_off, upload, download, remove_backup_remote, print_remote_backups,
}

-- What was given on the command line: arguments, and options by their names.
pub record Context : Type 0 where
  pub args : List Text
  pub string : Text → Text
  pub bool : Text → Bool

-- How a command ends: with lines printed and the result of its operation, or the process exits after
-- its help.
pub data Ended (S : Type 0) : Type 0 where
  finished : List Text → Outcome S → Ended S
  exits : List Text → ℕ → Ended S

-- `c.Args().Get(i)`
unfoldable pub arg : Context → ℕ → Text
arg c i = elim (get_elem? c.args i) [ some text ↦ text | none ↦ [] ]

abbrev pub default_config_path : Text
default_config_path = codes "/etc/clickhouse-backup/config.yml"

-- The file of the configuration: that of the command, or else that of the whole program.
unfoldable pub config_path : Text → Text → Text
config_path local global = if local == default_config_path then global else local

-- The program's surroundings: the time's name for a backup, the text of the default configuration, and
-- the server.
pub record Program (S : Type 0) : Type 0 where
  pub new_name : Text
  pub default_lines : List Text
  pub serve : Config → S → Outcome S

module _ (L : Machine) (D : Disk L) (Q : Connection L) (data_path : Config → L.State → Result Text)
    (C : Codec) (S : RemoteStorage) (order : Files → Files) (saved_order : Saved → Saved)
    (P : Program (L.State × S.State)) where
  abbrev pub Both : Type 0
  Both = L.State × S.State

  -- An operation on this machine only.
  abbrev locally : Outcome L.State → S.State → Ended Both
  locally panics r = finished [] panics
  locally unfinished r = finished [] unfinished
  locally (returned l failure) r = finished [] (returned (l, r) failure)

  abbrev local_result : L.State × Option Error → S.State → Ended Both
  local_result (l, failure) r = finished [] (returned (l, r) failure)

  -- One that may panic.
  abbrev local_or_panic : Option (L.State × Option Error) → S.State → Ended Both
  local_or_panic none r = finished [] panics
  local_or_panic (some run) r = local_result run r

  -- What is printed, or the error; `before` has been printed already.
  abbrev pub printed : List Text → Result (List Text) → Both → Ended Both
  printed before (ok lines) both = finished (before ++ lines) (returned both none)
  printed before (err e) both = finished before (returned both (some e))

  abbrev list_remote : List Text → Config → Text → Both → Ended Both
  list_remote before config format (l, r) =
      let (r', lines) = print_remote_backups L D C S order config format r in
      printed before lines (l, r')

  abbrev list_rest : Config → Text → Result (List Text) → Both → Ended Both
  list_rest config format (err e) both =
      finished (codes "Local backups:" ∷ []) (returned both (some e))
  list_rest config format (ok lines) both =
      if is_off config
      then finished (codes "Local backups:" ∷ lines) (returned both none)
      else list_remote ((codes "Local backups:" ∷ lines) ++ (codes "Remote backups:" ∷ [])) config
          format both

  abbrev list_local_first : Config → Text → Both → Ended Both
  list_local_first config format (l, r) =
      unless_panic (print_local_backups L config format l)
        (finished (codes "Local backups:" ∷ []) panics)
        (λ lines. list_rest config format lines (l, r))

  unfoldable pub list_command : Config → Text → Text → Both → Ended Both
  list_command config what format (l, r) =
      if what == codes "local"
      then unless_panic (print_local_backups L config format l) (finished [] panics)
          (λ lines. printed [] lines (l, r))
      else if what == codes "remote"
      then list_remote [] config format (l, r)
      else if what == codes "all"
      then list_local_first config format (l, r)
      else if is_empty what
      then list_local_first config format (l, r)
      else exits ((codes "Unknown command '" ++ what ++ codes "'") ∷ []) 1

  unfoldable pub delete_command : Config → Text → Text → Both → Ended Both
  delete_command config what name (l, r) =
      if is_empty name
      then exits (codes "Backup name must be defined" ∷ []) 1
      else if what == codes "local"
      then local_or_panic (remove_backup_local L config name l) r
      else if what == codes "remote"
      then finished [] (remove_backup_remote L D C S order config name (l, r))
      else exits ((codes "Unknown command '" ++ what ++ codes "'") ∷ []) 1

  -- The actions, by the names of their commands.
  unfoldable pub run_command : ℕ → Text → Context → Config → Both → Ended Both
  run_command fuel command c config (l, r) =
      if command == codes "tables"
      then printed [] (print_tables L D Q data_path config l) (l, r)
      else if command == codes "create"
      then locally
          (create_backup L D Q data_path config P.new_name (arg c 0) (c.string (codes "t")) l) r
      else if command == codes "upload"
      then finished [] (upload L D C S order config (arg c 0) (c.string (codes "diff-from")) (l, r))
      else if command == codes "list"
      then list_command config (arg c 0) (arg c 1) (l, r)
      else if command == codes "download"
      then finished [] (download L D C S order fuel config (arg c 0) (l, r))
      else if command == codes "restore"
      then local_or_panic
          (restore L (database_of L D Q data_path saved_order config) config (arg c 0)
            (c.string (codes "t")) (c.bool (codes "s")) (c.bool (codes "d")) (c.bool (codes "rm"))
            l)
          r
      else if command == codes "delete"
      then delete_command config (arg c 0) (arg c 1) (l, r)
      else if command == codes "default-config"
      then finished P.default_lines (returned (l, r) none)
      else if command == codes "freeze"
      then local_result (freeze (freezer_of L D Q data_path config) config (c.string (codes "t")) l)
          r
      else if command == codes "clean"
      then local_or_panic (clean L D config l) r
      else if command == codes "server"
      then finished [] (P.serve config (l, r))
      else exits ((codes "Error. Unknown command: '" ++ command ++ codes "'") ∷ [] ∷ []) 1
