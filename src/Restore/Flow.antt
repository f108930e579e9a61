-- ===== src/Restore/Flow.antt =====
-- What a restore does, and in which order.
use clickhouse_backup.Base.{
  ◌≡◌, refl, sym, ap, ◌∙◌, ◌⊎◌, inl, inr, Text, codes, ◌==◌, Bool, true, false, not, ◌&&◌, Option,
  none, some, List, [], ◌∷◌, ◌++◌, any, All, append-nil, append_assoc, Error, error_text, errorf,
  ok, if◌then◌else◌, arith, Bool-cases,
}
use clickhouse_backup.Base.Paths.{is_empty}
use clickhouse_backup.Config.{Config}
use clickhouse_backup.Local.{Machine, get_data_path}
use clickhouse_backup.Tables.{
  Table, BackupTable, parse_table_pattern_for_restore_data, mark_skipped, missing_tables, full_name,
}
use clickhouse_backup.Tables.Schema.{RestoreTable}
use clickhouse_backup.Base.Steps.{◌then_do◌, explain}
use clickhouse_backup.Restore.{
  Database, database_query, use_query, drop_query, create_table, create_all, restore_schema,
  then_next, copy_all, missing_error, copy_if_created, restore_data, restore,
}

-- The server has a table of the name.
abbrev pub is_created : List Table → BackupTable → Bool
is_created ch_tables r = any ch_tables (λ t. r.database == t.database && r.name == t.name)

-- What `missing_tables` says of some tables.
abbrev Says : List BackupTable → List Table → List Text → Type 0
Says tables ch_tables [] = All (λ r. is_created ch_tables r ≡ true) tables
Says tables ch_tables (m ∷ missing) = any tables (λ r. not (is_created ch_tables r)) ≡ true

missing_tables-Says :
    (tables : List BackupTable) (ch_tables : List Table)
    → Says tables ch_tables (missing_tables tables ch_tables)
unfolding missing_tables
missing_tables-Says [] ch_tables = tt
missing_tables-Says (r ∷ tables) ch_tables = elim (Bool-cases (is_created ch_tables r)) [
  | inl there ↦
      rw there
        (says_more (missing_tables tables ch_tables) there (missing_tables-Says tables ch_tables))
  | inr absent ↦ rw absent (ground (arith, absent))
]
  where
    says_more :
        (missing : List Text)
        → is_created ch_tables r ≡ true
        → Says tables ch_tables missing
        → Says (r ∷ tables) ch_tables missing
    says_more [] there h = (there, h)
    says_more (m ∷ missing) there h = ground (arith, there, h)

-- The report of an error at a table.
abbrev pub failed_at : Text → BackupTable → Error → Error
failed_at context t e =
    errorf ((context ++ full_name t.database t.name ++ codes "'") ++ codes ": " ++ error_text e)

module _ (L : Machine) (D : Database L) where
  -- The data of each table in turn is copied, and then attached; the first error ends it.
  pub data Copied : List BackupTable → L.State → L.State × Option Error → Type 0 where
    all_copied : {s : L.State} → Copied [] s (s, none)
    attached :
        {t : BackupTable} {tables : List BackupTable} {s s₁ s₂ : L.State}
        {end : L.State × Option Error}
        → D.copy_data t s ≡ (s₁, none)
        → D.attach_partitions t s₁ ≡ (s₂, none)
        → Copied tables s₂ end
        → Copied (t ∷ tables) s end
    not_attached :
        {t : BackupTable} {tables : List BackupTable} {s s₁ s₂ : L.State} {e : Error}
        → D.copy_data t s ≡ (s₁, none)
        → D.attach_partitions t s₁ ≡ (s₂, some e)
        → Copied
            (t ∷ tables)
            s
            (s₂, some (failed_at (codes "can't attach partitions for table '") t e))
    not_copied :
        {t : BackupTable} {tables : List BackupTable} {s s₁ : L.State} {e : Error}
        → D.copy_data t s ≡ (s₁, some e)
        → Copied (t ∷ tables) s (s₁, some (failed_at (codes "can't restore '") t e))

  attach_then-Copied :
      (t : BackupTable) (tables : List BackupTable) (s s₁ : L.State) (r : L.State × Option Error)
      → D.copy_data t s ≡ (s₁, none)
      → D.attach_partitions t s₁ ≡ r
      → ((s' : L.State) → Copied tables s' (copy_all L D tables s'))
      → Copied (t ∷ tables) s (
          explain
            (codes "can't attach partitions for table '"
              ++ full_name t.database t.name
              ++ codes "'")
            r
          then_do copy_all L D tables)
  attach_then-Copied t tables s s₁ (s₂, none) h h' rest = attached h h' (rest s₂)
  attach_then-Copied t tables s s₁ (s₂, some e) h h' rest = not_attached h h'

  copy_then-Copied :
      (t : BackupTable) (tables : List BackupTable) (s : L.State) (r : L.State × Option Error)
      → D.copy_data t s ≡ r
      → ((s' : L.State) → Copied tables s' (copy_all L D tables s'))
      → Copied (t ∷ tables) s (
          explain (codes "can't restore '" ++ full_name t.database t.name ++ codes "'") r
          then_do (λ s₁.
              explain
                (codes "can't attach partitions for table '"
                  ++ full_name t.database t.name
                  ++ codes "'")
                (D.attach_partitions t s₁))
          then_do copy_all L D tables)
  copy_then-Copied t tables s (s₁, none) h rest =
      attach_then-Copied t tables s s₁ (D.attach_partitions t s₁) h refl rest
  copy_then-Copied t tables s (s₁, some e) h rest = not_copied h

  copy_all-Copied :
      (tables : List BackupTable) (s : L.State) → Copied tables s (copy_all L D tables s)
  unfolding copy_all
  copy_all-Copied [] s = all_copied
  copy_all-Copied (t ∷ tables) s =
      copy_then-Copied t tables s (D.copy_data t s) refl (copy_all-Copied tables)

  -- How a restore of these tables ends.
  abbrev pub EndsChecked : List BackupTable → List Table → L.State → L.State × Option Error → Type 0
  EndsChecked tables ch_tables s end =
      ((tables ≡ []) × (end ≡ (s, some (errorf (codes "backup doesn't have tables to restore")))))
      ⊎ ((any tables (λ r. not (is_created ch_tables r)) ≡ true)
          × (end ≡ (s, some (missing_error L D (missing_tables tables ch_tables)))))
      ⊎ (All (λ r. is_created ch_tables r ≡ true) tables × Copied tables s end)

  copy_if_created-EndsChecked :
      (tables : List BackupTable) (ch_tables : List Table) (missing : List Text) (s : L.State)
      → missing_tables tables ch_tables ≡ missing
      → Says tables ch_tables missing
      → EndsChecked tables ch_tables s (copy_if_created L D tables missing s)
  unfolding copy_if_created
  copy_if_created-EndsChecked [] ch_tables missing s e h = inl (refl, refl)
  copy_if_created-EndsChecked (t ∷ tables) ch_tables [] s e h =
      inr (inr (h, copy_all-Copied (t ∷ tables) s))
  copy_if_created-EndsChecked (t ∷ tables) ch_tables (m ∷ missing) s e h = inr (inl (h, rw e refl))

  -- With a name, a data path, a connection, a backup that can be read and an answer of the
  -- database: if no table of the backup is chosen, or the database lacks one that is,
  -- `RestoreData` reports it and leaves the state as it is; otherwise the database has all chosen
  -- tables, and each in turn is copied and then attached, up to the first error, which it reports
  -- with the table's name.
  pub restore_data-EndsChecked :
      (config : Config) (name pattern data_path : Text) (s : L.State) (saved : List BackupTable)
      (rows : List Table)
      → is_empty name ≡ false
      → get_data_path L config s ≡ some data_path
      → is_empty data_path ≡ false
      → D.connect config s ≡ none
      → D.backup_tables name s ≡ ok saved
      → D.rows s ≡ ok rows
      → (end : L.State × Option Error) × (restore_data L D config name pattern s ≡ some end)
        × EndsChecked
            (parse_table_pattern_for_restore_data saved pattern)
            (mark_skipped config.click_house.skip_tables rows)
            s
            end
  unfolding restore_data
  restore_data-EndsChecked config name pattern data_path s saved rows n a p c b r =
      let chosen : List BackupTable = parse_table_pattern_for_restore_data saved pattern in
      let ch_tables : List Table = mark_skipped config.click_house.skip_tables rows in
      (
        copy_if_created L D chosen (missing_tables chosen ch_tables) s,
        rw (n, a, p, c, b) (ground (arith, r)),
        copy_if_created-EndsChecked chosen ch_tables (missing_tables chosen ch_tables) s refl
            (missing_tables-Says chosen ch_tables),
      )

  -- `Restore` restores the schema unless only data is asked for, and then, unless that failed or
  -- only the schema is asked for, the data: asked for both, or for neither, it restores both.
  pub restore_parts :
      (config : Config) (name pattern : Text) (schema_only data_only drop : Bool) (s : L.State)
      → restore L D config name pattern schema_only data_only drop s
        ≡ then_next L D
            (if data_only && not schema_only
              then some (s, none)
              else restore_schema L D config name pattern drop s)
            (λ s₁.
              if schema_only && not data_only
              then some (s₁, none)
              else restore_data L D config name pattern s₁)
  unfolding restore
  restore_parts config name pattern true true drop s = refl
  restore_parts config name pattern true false drop s = refl
  restore_parts config name pattern false true drop s = refl
  restore_parts config name pattern false false drop s = refl

-- A machine whose state is the list of the queries made, and its database, which refuses none.
abbrev pub log_machine : Machine
log_machine = record {
  State = List Text;
  ask_data_path = λ config s. some (ok (codes "/var/lib/clickhouse"));
  read_names = λ s path. ok [];
  stat = λ s path. ok (record { is_dir = true; mod_time = 0 });
  remove_all = λ s path. (s, none);
}

abbrev pub log_database : Database log_machine
log_database = record {
  connect = λ config s. none;
  exec = λ query s. (s ++ (query ∷ []), none);
  walk_files = λ path s. [];
  backup_tables = λ name s. ok [];
  rows = λ s. ok [];
  copy_data = λ t s. (s, none);
  attach_partitions = λ t s. (s, none);
}

-- The queries that create a table.
abbrev pub queries_of : Bool → RestoreTable → List Text
queries_of true t = database_query t.database ∷ use_query t.database ∷ drop_query t ∷ t.query ∷ []
queries_of false t = database_query t.database ∷ use_query t.database ∷ t.query ∷ []

abbrev pub all_queries : Bool → List RestoreTable → List Text
all_queries drop [] = []
all_queries drop (t ∷ tables) = queries_of drop t ++ all_queries drop tables

-- On a database that refuses nothing, the loop of `restoreSchema` makes for each table in turn
-- the query for its database, the one that uses it, the one that drops the table where asked to,
-- and the table's own, and no others.
pub create_all-log_database :
    (drop : Bool) (tables : List RestoreTable) (s : List Text)
    → create_all log_machine log_database drop tables s ≡ (s ++ all_queries drop tables, none)
unfolding create_all create_table
create_all-log_database drop [] s = ap (λ l. (l, none)) (sym (append-nil s))
create_all-log_database true (t ∷ tables) s =
    create_all-log_database true tables _ ∙ ap (λ l. (l, none)) (simp append_assoc)
create_all-log_database false (t ∷ tables) s =
    create_all-log_database false tables _ ∙ ap (λ l. (l, none)) (simp append_assoc)
