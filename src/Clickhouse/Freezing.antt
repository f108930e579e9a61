-- ===== src/Clickhouse/Freezing.antt =====
-- What `FreezeTable` and `AttachPatritions` of pkg/chbackup/clickhouse.go ask of the database, in order.
use clickhouse_backup.Base.{
  Text, codes, ◌==◌, ◌≡◌, refl, ap, ◌∙◌, ◌⊎◌, ltb_ℤ, pos, true, false, none, List, [], ◌∷◌, ◌++◌,
  map, ℤ, Result, ok, Bool-cases, inl, inr, if◌then◌else◌,
}
use clickhouse_backup.Base.Steps.{for_each-log}
use clickhouse_backup.Config.{Config}
use clickhouse_backup.Tables.{Table, BackupTable}
use clickhouse_backup.Restore.Flow.{log_machine}
use clickhouse_backup.Clickhouse.{
  Connection, partitions_query, freeze_partition_query, attach_query, get_version,
  freeze_table_old_way, freeze_table, attach_partitions,
}

-- A database that answers queries, and whose state is the list of the statements executed. It refuses
-- none of them.
abbrev pub log_connection : (Text → Result (List Text)) → List Table → Connection log_machine
log_connection answer tables = record {
  ping = λ config s. none;
  exec = λ statement s. (s ++ (statement ∷ []), none);
  select = λ query s. answer query;
  select_tables = λ query s. ok tables;
}

-- The beginning of a statement that changes a table.
abbrev pub alter_table : Table → Text
alter_table table =
    codes "ALTER TABLE `" ++ table.database ++ codes "`.`" ++ table.name ++ codes "`"

abbrev pub partition_statement : Table → Text → Text
partition_statement table id =
    if id == codes "all"
    then alter_table table ++ codes " FREEZE PARTITION tuple();"
    else alter_table table ++ (codes " FREEZE PARTITION ID '" ++ id ++ codes "';")

module _ (answer : Text → Result (List Text)) (tables : List Table) where
  freeze_table_old_way-log :
      (table : Table) (ids : List Text) (s : List Text)
      → answer (partitions_query table) ≡ ok ids
      → freeze_table_old_way log_machine (log_connection answer tables) table s
        ≡ (s ++ map (freeze_partition_query table) ids, none)
  unfolding freeze_table_old_way
  freeze_table_old_way-log table ids s parts =
      rw parts (for_each-log _ (freeze_partition_query table) (λ id s'. refl) ids s)

  freeze_partition_query-Text :
      (table : Table) (ids : List Text)
      → map (freeze_partition_query table) ids ≡ map (partition_statement table) ids
  freeze_partition_query-Text table [] = refl
  freeze_partition_query-Text table (id ∷ ids) =
      ap (λ q. q ∷ map (freeze_partition_query table) ids)
        (elim (Bool-cases (id == codes "all")) [ inl e ↦ rw e refl | inr e ↦ rw e refl ])
      ∙ ap (λ l. partition_statement table id ∷ l) (freeze_partition_query-Text table ids)

  -- On a database that refuses no statement, and whose version and partitions can be read: before
  -- version 19.1.5, which is 19001005, or where the configuration asks for it, `FreezeTable`
  -- makes one statement for each of the partitions that the database lists, in order, and
  -- otherwise one for the whole table, and no others. A partition `all` is named by `tuple()`,
  -- every other one by its id.
  pub freeze_table-log :
      (config : Config) (table : Table) (version : ℤ) (ids : List Text) (s : List Text)
      → get_version log_machine (log_connection answer tables) s ≡ ok version
      → answer (partitions_query table) ≡ ok ids
      → (((ltb_ℤ version (pos 19001005) ≡ true) ⊎ (config.click_house.freeze_by_part ≡ true))
          × (freeze_table log_machine (log_connection answer tables) config table s
              ≡ (s ++ map (partition_statement table) ids, none)))
        ⊎ ((ltb_ℤ version (pos 19001005) ≡ false)
            × (config.click_house.freeze_by_part ≡ false)
            × (freeze_table log_machine (log_connection answer tables) config table s
                ≡ (s ++ ((alter_table table ++ codes " FREEZE;") ∷ []), none)))
  unfolding freeze_table
  freeze_table-log config table version ids s known parts =
      let by_part =
        freeze_table_old_way-log table ids s parts
        ∙ ap (λ l. (s ++ l, none)) (freeze_partition_query-Text table ids) in
      elim (Bool-cases (ltb_ℤ version (pos 19001005))) [
        | inl old ↦ inl (inl old, rw (known, old) by_part)
        | inr new ↦ elim (Bool-cases config.click_house.freeze_by_part) [
          | inl asked ↦ inl (inr asked, rw (known, new, asked) by_part)
          | inr whole ↦ inr (new, whole, rw (known, new, whole) refl)
        ]
      ]

  attach_partitions-log :
      (table : BackupTable) (s : List Text)
      → attach_partitions log_machine (log_connection answer tables) table s
        ≡ (s ++ map (attach_query table) table.partitions, none)
  unfolding attach_partitions
  attach_partitions-log table s =
      for_each-log _ (attach_query table) (λ p s'. refl) table.partitions s
