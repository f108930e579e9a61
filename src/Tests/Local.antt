-- ===== src/Tests/Local.antt =====
-- Local backups, freezes and restores, on a machine with two backups.
use clickhouse_backup.Base.{
  not, map, keep_if, ◌≡◌, refl, ◌⊎◌, Text, codes, ◌==◌, ◌++◌, true, false, Option, none, some, List,
  [], ◌∷◌, any, pos, Error, ok, err,
}
use clickhouse_backup.Base.Paths.{path_join}
use clickhouse_backup.Base.Sorting.{IsSorted}
use clickhouse_backup.Config.{Config, default_config}
use clickhouse_backup.Retention.{Backup, date_before}
use clickhouse_backup.Freeze.{freeze, freeze_all}
use clickhouse_backup.Freeze.Guard.{log_freezer, freeze_all-log_freezer}
use clickhouse_backup.Local.{Machine, backup_word, get_data_path, list_local_backups}
use clickhouse_backup.Local.Removal.{
  is_backup_in, list_local_backups-directories, EndsOldest, remove_old_backups_local-oldest,
}
use clickhouse_backup.Tables.{
  Table, full_name, BackupTable, parse_table_pattern_for_restore_data, mark_skipped,
}
use clickhouse_backup.Tables.Schema.{RestoreTable}
use clickhouse_backup.Restore.{
  Database, create_all, restore_schema, restore_data, restore, then_next,
}
use clickhouse_backup.Restore.Flow.{
  EndsChecked, restore_data-EndsChecked, restore_parts, log_machine, log_database, all_queries,
  create_all-log_database,
}

-- The state is the list of the names in the directory of backups.
abbrev disk : Machine
disk = record {
  State = List Text;
  ask_data_path = λ config s. some (ok (codes "/data"));
  read_names = λ s path. ok s;
  stat = λ s path. ok (record { is_dir = true; mod_time = 7 });
  remove_all = λ s path. ([], none);
}

abbrev names : List Text
names = codes "monday" ∷ codes "tuesday" ∷ []

known : get_data_path disk default_config names ≡ some (codes "/data")
unfolding get_data_path default_config
known = refl

list_local_backups-directories_example :
    (backups : List Backup) × (list_local_backups disk default_config names ≡ some (ok backups))
    × IsSorted date_before backups
    × (any backups (λ b. b.name == codes "monday")
        ≡ any names (
            is_backup_in disk names
              (path_join (codes "/data" ∷ backup_word ∷ []))
              (codes "monday")))
list_local_backups-directories_example =
    list_local_backups-directories disk default_config names (codes "monday") (codes "/data") names
      known refl refl

abbrev keep_one : Config
keep_one = record default_config {
  general = record (default_config.general) { backups_to_keep_local = pos 1 };
}

remove_old_backups_local-oldest_example : EndsOldest disk (pos 1) keep_one names
remove_old_backups_local-oldest_example = remove_old_backups_local-oldest disk keep_one names

abbrev saved : List BackupTable
saved = record { database = codes "db"; name = codes "t"; partitions = [] } ∷ []

abbrev no_tables : Database disk
no_tables = record {
  connect = λ config s. none;
  exec = λ query s. (s, none);
  walk_files = λ path s. [];
  backup_tables = λ name s. ok saved;
  rows = λ s. ok [];
  copy_data = λ t s. ([], none);
  attach_partitions = λ t s. (s, none);
}

restore_data-EndsChecked_example :
    (end : List Text × Option Error) × (restore_data disk no_tables default_config
        (codes "monday")
        []
        names
      ≡ some end)
    × EndsChecked disk no_tables
        (parse_table_pattern_for_restore_data saved [])
        (mark_skipped default_config.click_house.skip_tables [])
        names
        end
restore_data-EndsChecked_example =
    restore_data-EndsChecked disk no_tables default_config (codes "monday") [] (codes "/data") names
      saved [] refl known refl refl refl refl

restore_parts_test :
    restore disk no_tables default_config (codes "monday") [] true true false names
    ≡ then_next disk no_tables
        (restore_schema disk no_tables default_config (codes "monday") [] false names)
        (λ s₁. restore_data disk no_tables default_config (codes "monday") [] s₁)
restore_parts_test =
    restore_parts disk no_tables default_config (codes "monday") [] true true false names

abbrev new_table : RestoreTable
new_table = record {
  database = codes "db";
  table = codes "t";
  query = codes "CREATE TABLE t";
  path = [];
}

create_all-log_database_test :
    create_all log_machine log_database true (new_table ∷ []) []
    ≡ ([] ++ all_queries true (new_table ∷ []), none)
create_all-log_database_test = create_all-log_database true (new_table ∷ []) []

abbrev two_tables : List Table
two_tables =
    record { database = codes "db"; name = codes "t"; skip = false }
    ∷ record { database = codes "system"; name = codes "x"; skip = true }
    ∷ []

freeze_test : freeze (log_freezer two_tables) default_config [] [] ≡ (codes "db.t" ∷ [], none)
unfolding freeze clickhouse_backup.Tables.parse_table_pattern_for_freeze mark_skipped freeze_all
    clickhouse_backup.Tables.is_skipped default_config clickhouse_backup.Base.Match.matched
freeze_test = refl

freeze_all-log_freezer_test :
    freeze_all (log_freezer two_tables) two_tables []
    ≡ ([] ++ map (λ t. full_name t.database t.name) (keep_if (λ t. not t.skip) two_tables), none)
freeze_all-log_freezer_test = freeze_all-log_freezer two_tables two_tables []
