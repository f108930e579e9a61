-- ===== src/Tests/Clickhouse.antt =====
-- What the client of ClickHouse does, on small machines.
use clickhouse_backup.Base.{
  ltb_ℤ, ◌⊎◌, ℕ, suc, ◌≡◌, refl, Text, codes, ◌==◌, ==_refl, Bool, true, false, Option, none, some,
  List, [], ◌∷◌, ◌++◌, map, keep_if, any, All, NodupBy, pos, ℤ, Error, not_exist, Result, ok, err,
  if◌then◌else◌, arith,
}
use clickhouse_backup.Base.Maps.{lookup}
use clickhouse_backup.Base.Paths.{path_join, is_empty}
use clickhouse_backup.Config.{Config, default_config}
use clickhouse_backup.Files.{Disk, Walked, directory, is_clickhouse_shadow}
use clickhouse_backup.Restore.Flow.{log_machine}
use clickhouse_backup.Tables.{Table, BackupTable}
use clickhouse_backup.Clickhouse.{
  Connection, freeze_table, freezes_by_part, freeze_query, freeze_partition_query,
}
use clickhouse_backup.Clickhouse.Freezing.{
  alter_table, partition_statement, log_connection, freeze_table-log,
}
use clickhouse_backup.Clickhouse.Saved.{
  Places, Saved, places, partitions_of, get_backup_tables, shadow_in_backup,
}
use clickhouse_backup.Clickhouse.Grouping.{is_part, partition_at, get_backup_tables-partitions}
use clickhouse_backup.Streams.Memory.{Store, memory_machine, memory_disk}

abbrev table : Table
table = record { database = codes "db"; name = codes "t"; skip = false }

abbrev answer : Text → Result (List Text)
answer query = ok (codes "18016001" ∷ [])

freeze_table-log_example :
    (((ltb_ℤ (pos 18016001) (pos 19001005) ≡ true)
        ⊎ (default_config.click_house.freeze_by_part ≡ true))
      × (freeze_table log_machine (log_connection answer []) default_config table []
          ≡ ([] ++ map (partition_statement table) (codes "18016001" ∷ []), none)))
    ⊎ ((ltb_ℤ (pos 18016001) (pos 19001005) ≡ false)
        × (default_config.click_house.freeze_by_part ≡ false)
        × (freeze_table log_machine (log_connection answer []) default_config table []
            ≡ ([] ++ ((alter_table table ++ codes " FREEZE;") ∷ []), none)))
unfolding clickhouse_backup.Clickhouse.get_version clickhouse_backup.Base.atoi
freeze_table-log_example =
    freeze_table-log answer [] default_config table (pos 18016001) (codes "18016001" ∷ []) [] refl
      refl

abbrev path_of : Config → Store → Result Text
path_of config s = ok (codes "/d")

-- A backup of the table `db.t` with one part.
abbrev part_dir : Text
part_dir = codes "/d/backup/b/shadow/db/t/all_1_1_0"

abbrev part_disk : Disk memory_machine
part_disk = record memory_disk {
  walk = λ s path. record { path = part_dir; kind = directory; failure = none } ∷ [];
}

abbrev part_files : Store
part_files = (part_dir ++ codes "/data.bin", codes "1") ∷ []

abbrev part_table : BackupTable
part_table = record {
  database = codes "db";
  name = codes "t";
  partitions = record { name = codes "all_1_1_0"; path = part_dir } ∷ [];
}

get_backup_tables-partitions_example :
    let shadow_path : Text =
      shadow_in_backup memory_machine part_disk path_of (codes "/d") (codes "b") in
    let P : Places = places (is_clickhouse_shadow memory_machine shadow_path part_files) in
    partitions_of (lookup (codes "db.t") ((codes "db.t", part_table) ∷ []))
    ≡ map
        (partition_at P shadow_path)
        (keep_if (is_part P shadow_path (codes "db.t")) (part_disk.walk part_files shadow_path))
unfolding get_backup_tables clickhouse_backup.Clickhouse.Saved.add_walked_parts
    clickhouse_backup.Clickhouse.Saved.add_directory clickhouse_backup.Base.split
    clickhouse_backup.Base.trim clickhouse_backup.Base.trim_prefix path_join places
    is_clickhouse_shadow clickhouse_backup.Base.Paths.path_base clickhouse_backup.Base.atoi
    clickhouse_backup.Clickhouse.Saved.add_part clickhouse_backup.Base.Maps.map_set
    clickhouse_backup.Names.unescaped lookup clickhouse_backup.Names.path_unescape
get_backup_tables-partitions_example =
    get_backup_tables-partitions memory_machine part_disk path_of default_config (codes "b")
      (codes "/d") part_files ((codes "db.t", part_table) ∷ []) refl refl (codes "db.t")

-- The parts of `a`.`b.c` and of `a.b`.`c` fall into one table.
abbrev two_parts : List Walked
two_parts =
    record { path = codes "/s/a%2Eb/c/p"; kind = directory; failure = none }
    ∷ record { path = codes "/s/a/b%2Ec/q"; kind = directory; failure = none }
    ∷ []

collision_test :
    clickhouse_backup.Clickhouse.Saved.add_walked_parts (places false) (codes "/s") two_parts []
    ≡ ok (
        (
          codes "a.b.c",
          record {
            database = codes "a.b";
            name = codes "c";
            partitions =
                record { name = codes "p"; path = codes "/s/a%2Eb/c/p" }
                ∷ record { name = codes "q"; path = codes "/s/a/b%2Ec/q" }
                ∷ [];
          },
        )
        ∷ [])
unfolding clickhouse_backup.Clickhouse.Saved.add_walked_parts
    clickhouse_backup.Clickhouse.Saved.add_directory clickhouse_backup.Base.split
    clickhouse_backup.Base.trim clickhouse_backup.Base.trim_prefix places
    clickhouse_backup.Clickhouse.Saved.add_part clickhouse_backup.Base.Maps.map_set ◌==◌
    clickhouse_backup.Names.unescaped clickhouse_backup.Names.path_unescape lookup
collision_test = refl
