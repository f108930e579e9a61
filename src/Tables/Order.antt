-- ===== src/Tables/Order.antt =====
-- The order of `BackupTables.Sort` and `RestoreTables.Sort`, and of what a restore creates and fills.
use clickhouse_backup.Base.{
  Text, ==_iff, ◌≡◌, ◌∙◌, Bool, true, false, ◌&&◌, ◌||◌, List, [], ◌∷◌, any, arith, if◌then◌else◌,
  any-add_unless, text_ltb_asymm, text_ltb_negative_trans, text_ltb_total, text_ltb_irrefl,
}
use clickhouse_backup.Base.Match.{matched}
use clickhouse_backup.Base.Perms.{any-sort_stable}
use clickhouse_backup.Base.Sorting.{IsLess, IsSorted, sort_stable-IsSorted}
use clickhouse_backup.Tables.{
  BackupTable, full_name, name_less, same_backup_table, add_backup_table, backup_table_less,
  sort_backup_tables, add_matching_backup, choose_backup_tables,
  parse_table_pattern_for_restore_data, patterns_of,
}

module _ (d n d' n' : Text) where
  pub name_less_asymm : name_less d n d' n' ≡ true → name_less d' n' d n ≡ false
  name_less_asymm h =
      ground (
        arith,
        ==_iff d d',
        ==_iff d' d,
        text_ltb_asymm d d',
        text_ltb_asymm n n',
        text_ltb_irrefl d,
      )

  pub name_less_negative_trans :
      (d'' n'' : Text)
      → name_less d n d' n' ≡ false
      → name_less d' n' d'' n'' ≡ false
      → name_less d n d'' n'' ≡ false
  name_less_negative_trans d'' n'' p q = ground (
    arith,
    ==_iff d d',
    ==_iff d' d'',
    ==_iff d d'',
    text_ltb_negative_trans d d' d'',
    text_ltb_negative_trans n n' n'',
    text_ltb_total d' d'',
  )

pub backup_table_less-IsLess : IsLess backup_table_less
backup_table_less-IsLess = record {
  asymm = λ a b h. name_less_asymm a.database a.name b.database b.name h;
  negative_trans = λ a b c p q.
      name_less_negative_trans a.database a.name b.database b.name c.database c.name p q;
}

-- The patterns match a table of a backup.
abbrev pub fits_backup : List Text → BackupTable → Bool
fits_backup patterns t = any patterns (λ pattern. matched pattern (full_name t.database t.name))

module _ (t : BackupTable) where
  any-add_backup_table :
      (x : BackupTable) (tables : List BackupTable)
      → any (add_backup_table tables x) (λ y. same_backup_table y t)
        ≡ (any tables (λ y. same_backup_table y t) || same_backup_table x t)
  unfolding add_backup_table
  any-add_backup_table x tables =
      any-add_unless same_backup_table (λ y. same_backup_table y t) x
        (λ y s e. ground (
          arith,
          ==_iff y.database x.database,
          ==_iff y.name x.name,
          ==_iff x.database t.database,
          ==_iff x.name t.name,
        ))
        tables

  any-add_matching_backup :
      (x : BackupTable) (patterns : List Text) (result : List BackupTable)
      → any (add_matching_backup x patterns result) (λ y. same_backup_table y t) ≡ (
          any result (λ y. same_backup_table y t)
          || (fits_backup patterns x && same_backup_table x t))
  unfolding add_matching_backup
  any-add_matching_backup x [] result = ground arith
  any-add_matching_backup x (pattern ∷ patterns) result =
      let fit = matched pattern (full_name x.database x.name) in
      ground (
        arith,
        any-add_matching_backup x patterns (if fit then add_backup_table result x else result),
        any-add_backup_table x result,
      )

  any-choose_backup_tables :
      (tables : List BackupTable) (patterns : List Text) (result : List BackupTable)
      → any (choose_backup_tables tables patterns result) (λ y. same_backup_table y t) ≡ (
          any result (λ y. same_backup_table y t)
          || any tables (λ x. fits_backup patterns x && same_backup_table x t))
  unfolding choose_backup_tables
  any-choose_backup_tables [] patterns result = ground arith
  any-choose_backup_tables (x ∷ tables) patterns result = ground (
    arith,
    any-choose_backup_tables tables patterns (add_matching_backup x patterns result),
    any-add_matching_backup x patterns result,
  )

-- The tables to restore are in the order of their names, and a name is among them exactly if a
-- pattern matches a table of the backup with that name. An empty pattern stands for `*`.
pub parse_table_pattern_for_restore_data_chosen :
    (tables : List BackupTable) (pattern : Text) (t : BackupTable)
    → let chosen : List BackupTable = parse_table_pattern_for_restore_data tables pattern in
      IsSorted backup_table_less chosen
      × (any chosen (λ y. same_backup_table y t)
          ≡ any tables (λ x. fits_backup (patterns_of pattern) x && same_backup_table x t))
unfolding parse_table_pattern_for_restore_data sort_backup_tables
parse_table_pattern_for_restore_data_chosen tables pattern t =
    let found : List BackupTable = choose_backup_tables tables (patterns_of pattern) [] in
    (
      sort_stable-IsSorted backup_table_less backup_table_less-IsLess found,
      any-sort_stable (λ y. same_backup_table y t) backup_table_less found
          ∙ any-choose_backup_tables t tables (patterns_of pattern) [],
    )
