-- ===== src/Tests/Tables.antt =====
-- Names, patterns, schemas and the configuration.
use clickhouse_backup.Base.{
  ℕ, ◌≡◌, refl, Text, codes, ◌==◌, ◌++◌, Bool, true, false, not, ◌&&◌, Option, none, some, List, [],
  ◌∷◌, any, All, NodupBy, split, pos, Result, ok, err, arith,
}
use clickhouse_backup.Base.Paths.{is_empty}
use clickhouse_backup.Base.Match.{matched}
use clickhouse_backup.Base.Sorting.{IsSorted}
use clickhouse_backup.Names.{table_path_encode, path_unescape}
use clickhouse_backup.Names.Roundtrip.{
  is_safe, path_unescape-table_path_encode, table_path_encode_safe,
}
use clickhouse_backup.Tables.{
  Table, BackupTable, same_table, same_backup_table, backup_table_less,
  parse_table_pattern_for_freeze, parse_table_pattern_for_restore_data, patterns_of,
}
use clickhouse_backup.Tables.Choice.{fits, parse_table_pattern_for_freeze_chosen}
use clickhouse_backup.Tables.Order.{fits_backup, parse_table_pattern_for_restore_data_chosen}
use clickhouse_backup.Tables.Schema.{
  RestoreTable, WalkedFile, restore_table_less, parse_schema_pattern,
}
use clickhouse_backup.Tables.Schema.Creation.{
  IsRegular, IsDistributed, IsView, parse_schema_pattern_order,
}
use clickhouse_backup.Config.{default_config, validate_config}
use clickhouse_backup.Config.Formats.{get_archive_writer, get_archive_reader, get_extension}
use clickhouse_backup.Config.Validity.{
  is_ok, IsValid, validate_config-IsValid, formats_agree, with_formats,
  validate_config-with_formats,
}

encode_test : table_path_encode (codes "a-b.c/d") ≡ codes "a%2Db%2Ec%2Fd"
unfolding table_path_encode clickhouse_backup.Names.replace_all clickhouse_backup.Names.path_escape
encode_test = refl

path_unescape-table_path_encode_example :
    path_unescape (table_path_encode (codes "a-b.c/d")) ≡ some (codes "a-b.c/d")
path_unescape-table_path_encode_example =
    path_unescape-table_path_encode (codes "a-b.c/d") (omega arith)

table_path_encode_safe_test : All (λ c. is_safe c ≡ true) (table_path_encode (codes "a-b"))
table_path_encode_safe_test = table_path_encode_safe (codes "a-b") (omega arith)

match_test : matched (codes "sys*.[a-f]?le") (codes "system.file") ≡ true
unfolding matched
match_test = refl

abbrev table : Text → Text → Table
table database name = record { database = database; name = name; skip = false }

abbrev tables : List Table
tables =
    table (codes "db") (codes "a")
    ∷ table (codes "db") (codes "b")
    ∷ table (codes "x") (codes "a")
    ∷ []

choose_test : parse_table_pattern_for_freeze tables (codes "db.*,*.a") ≡ tables
unfolding parse_table_pattern_for_freeze clickhouse_backup.Tables.choose_tables
    clickhouse_backup.Tables.add_matching split matched clickhouse_backup.Tables.add_table ◌==◌
choose_test = refl

parse_table_pattern_for_freeze_chosen_example :
    (any
        (parse_table_pattern_for_freeze tables (codes "db.*"))
        (λ y. same_table y (table (codes "db") (codes "b")))
      ≡ any tables (λ x.
        fits (split b',' (codes "db.*")) x && same_table x (table (codes "db") (codes "b"))))
    × NodupBy same_table (parse_table_pattern_for_freeze tables (codes "db.*"))
parse_table_pattern_for_freeze_chosen_example =
    parse_table_pattern_for_freeze_chosen tables b'd' (codes "b.*") (table (codes "db") (codes "b"))

abbrev saved : Text → Text → BackupTable
saved database name = record { database = database; name = name; partitions = [] }

abbrev saved_tables : List BackupTable
saved_tables = saved (codes "db") (codes "b") ∷ saved (codes "db") (codes "a") ∷ []

parse_table_pattern_for_restore_data_chosen_example :
    IsSorted backup_table_less (parse_table_pattern_for_restore_data saved_tables [])
    × (any
          (parse_table_pattern_for_restore_data saved_tables [])
          (λ y. same_backup_table y (saved (codes "db") (codes "a")))
        ≡ any saved_tables (λ x.
          fits_backup (patterns_of []) x && same_backup_table x (saved (codes "db") (codes "a"))))
parse_table_pattern_for_restore_data_chosen_example =
    parse_table_pattern_for_restore_data_chosen saved_tables [] (saved (codes "db") (codes "a"))

abbrev schema_file : Text → Text → WalkedFile
schema_file path content = record { path = path; is_regular = true; content = ok content }

abbrev schema_files : List WalkedFile
schema_files =
    schema_file (codes "m/db/d.sql") (codes "ATTACH TABLE d ENGINE = Distributed(c, db, t)")
    ∷ schema_file (codes "m/db/t%2D.sql") (codes "ATTACH TABLE t")
    ∷ []

abbrev created : List RestoreTable
created =
    record {
      database = codes "db";
      table = codes "t-";
      query = codes "CREATE TABLE t";
      path = codes "m/db/t%2D.sql";
    }
    ∷ record {
      database = codes "db";
      table = codes "d";
      query = codes "CREATE TABLE d ENGINE = Distributed(c, db, t)";
      path = codes "m/db/d.sql";
    }
    ∷ []

schema_read : parse_schema_pattern (codes "m") [] schema_files ≡ ok created
unfolding parse_schema_pattern clickhouse_backup.Tables.Schema.walk_schemas
    clickhouse_backup.Tables.Schema.add_walked clickhouse_backup.Base.has_suffix
    clickhouse_backup.Tables.Schema.schema_parts split clickhouse_backup.Base.trim
    clickhouse_backup.Base.trim_prefix clickhouse_backup.Base.trim_suffix
    clickhouse_backup.Tables.Schema.add_named matched clickhouse_backup.Names.unescaped
    path_unescape clickhouse_backup.Tables.Schema.sort_restore_tables
    clickhouse_backup.Base.Sorting.sort_stable clickhouse_backup.Tables.Schema.add_schema
    clickhouse_backup.Base.contains clickhouse_backup.Base.Sorting.insert
    clickhouse_backup.Base.has_prefix clickhouse_backup.Base.replace_first
    clickhouse_backup.Base.skip clickhouse_backup.Base.text_ltb ◌==◌
    clickhouse_backup.Tables.Schema.add_restore_table
schema_read = refl

parse_schema_pattern_order_example :
    (regular distributed views : List RestoreTable) × (created ≡ regular ++ distributed ++ views)
    × All IsRegular regular
    × All IsDistributed distributed
    × All IsView views
    × IsSorted restore_table_less regular
    × IsSorted restore_table_less distributed
    × IsSorted restore_table_less views
parse_schema_pattern_order_example =
    parse_schema_pattern_order (codes "m") [] schema_files created schema_read

default_valid : is_ok (validate_config default_config) ≡ true
unfolding validate_config get_archive_writer ◌==◌ default_config
    clickhouse_backup.Config.Durations.parse_duration
default_valid = refl

validate_config-IsValid_test : IsValid default_config
validate_config-IsValid_test = validate_config-IsValid default_config default_valid

formats_agree_example :
    (is_ok (get_archive_writer (codes "zip") (pos 1)) ≡ is_ok (get_archive_reader (codes "zip")))
    × (is_ok (get_archive_writer (codes "zip") (pos 1))
        ≡ not (is_empty (get_extension (codes "zip"))))
formats_agree_example = formats_agree (codes "zip") (pos 1)

validate_config-with_formats_test :
    validate_config (with_formats (codes "zip") (codes "rar") [] default_config)
    ≡ validate_config default_config
validate_config-with_formats_test =
    validate_config-with_formats default_config (codes "zip") (codes "rar") []
