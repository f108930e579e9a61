-- ===== src/Clickhouse/Interfaces.antt =====
-- The client of pkg/chbackup/clickhouse.go as what `Restore` and `Freeze` of pkg/chbackup/backup.go use.
use clickhouse_backup.Base.{Text, List, map, Result, ok, err}
use clickhouse_backup.Config.{Config}
use clickhouse_backup.Local.{Machine}
use clickhouse_backup.Files.{Disk, is_regular}
use clickhouse_backup.Freeze.{Freezer}
use clickhouse_backup.Restore.{Database}
use clickhouse_backup.Tables.{BackupTable}
use clickhouse_backup.Tables.Schema.{WalkedFile}
use clickhouse_backup.Clickhouse.{
  Connection, tables_query, connect, freeze_table, attach_partitions,
}
use clickhouse_backup.Clickhouse.Saved.{Saved, get_backup_tables, copy_data}

abbrev tables_in : (Saved → Saved) → Result Saved → Result (List BackupTable)
tables_in order (err e) = err e
tables_in order (ok saved) = ok (map (λ e. e.1) (order saved))

-- `data_path` is `GetDataPath`, where it does not panic, and `order` the order in which `range` visits
-- the map of `GetBackupTables`.
module _ (L : Machine) (D : Disk L) (Q : Connection L)
    (data_path : Config → L.State → Result Text) where
  abbrev pub walk_schema : Text → L.State → List WalkedFile
  walk_schema path s =
      map
        (λ w. record {
          path = w.path;
          is_regular = is_regular w.kind;
          content = D.read_file s w.path;
        })
        (D.walk s path)

  abbrev pub database_of : (Saved → Saved) → Config → Database L
  database_of order config = record {
    connect = connect L Q;
    exec = Q.exec;
    walk_files = walk_schema;
    backup_tables = λ name s. tables_in order (get_backup_tables L D data_path config name s);
    rows = Q.select_tables tables_query;
    copy_data = copy_data L D data_path config;
    attach_partitions = attach_partitions L Q;
  }

  abbrev pub freezer_of : Config → Freezer
  freezer_of config = record {
    State = L.State;
    connect = connect L Q;
    data_path = data_path;
    read_dir = λ path s. L.read_names s path;
    rows = Q.select_tables tables_query;
    freeze_table = freeze_table L Q config;
  }
