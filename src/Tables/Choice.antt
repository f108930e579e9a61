-- ===== src/Tables/Choice.antt =====
-- Which tables the patterns choose.
use clickhouse_backup.Base.{
  ℕ, Text, ==_iff, ◌≡◌, Bool, ◌&&◌, ◌||◌, List, [], ◌∷◌, any, split, arith, if◌then◌else◌,
  any-add_unless, NodupBy, add_unless-NodupBy,
}
use clickhouse_backup.Base.Match.{matched}
use clickhouse_backup.Tables.{
  Table, full_name, same_table, add_table, add_matching, choose_tables,
  parse_table_pattern_for_freeze,
}

-- The patterns match a table.
abbrev pub fits : List Text → Table → Bool
fits patterns t = any patterns (λ pattern. matched pattern (full_name t.database t.name))

any-add_table :
    (t x : Table) (tables : List Table)
    → any (add_table tables x) (λ y. same_table y t)
      ≡ (any tables (λ y. same_table y t) || same_table x t)
unfolding add_table
any-add_table t x tables =
    any-add_unless same_table (λ y. same_table y t) x
      (λ y s e. ground (
        arith,
        ==_iff y.database x.database,
        ==_iff y.name x.name,
        ==_iff x.database t.database,
        ==_iff x.name t.name,
      ))
      tables

any-add_matching :
    (t x : Table) (patterns : List Text) (result : List Table)
    → any (add_matching x patterns result) (λ y. same_table y t)
      ≡ (any result (λ y. same_table y t) || (fits patterns x && same_table x t))
unfolding add_matching
any-add_matching t x [] result = ground arith
any-add_matching t x (pattern ∷ patterns) result = ground (
  arith,
  any-add_matching t x patterns
      (if matched pattern (full_name x.database x.name) then add_table result x else result),
  any-add_table t x result,
)

any-choose_tables :
    (t : Table) (tables : List Table) (patterns : List Text) (result : List Table)
    → any (choose_tables tables patterns result) (λ y. same_table y t)
      ≡ (any result (λ y. same_table y t) || any tables (λ x. fits patterns x && same_table x t))
unfolding choose_tables
any-choose_tables t [] patterns result = ground arith
any-choose_tables t (x ∷ tables) patterns result = ground (
  arith,
  any-choose_tables t tables patterns (add_matching x patterns result),
  any-add_matching t x patterns result,
)

add_matching-NodupBy :
    (x : Table) (patterns : List Text) (result : List Table)
    → NodupBy same_table result
    → NodupBy same_table (add_matching x patterns result)
unfolding add_matching add_table
add_matching-NodupBy x [] result u = u
add_matching-NodupBy x (pattern ∷ patterns) result u =
    add_matching-NodupBy x patterns _ (ground (arith, add_unless-NodupBy same_table result x u))

choose_tables-NodupBy :
    (tables : List Table) (patterns : List Text) (result : List Table)
    → NodupBy same_table result
    → NodupBy same_table (choose_tables tables patterns result)
unfolding choose_tables
choose_tables-NodupBy [] patterns result u = u
choose_tables-NodupBy (x ∷ tables) patterns result u =
    choose_tables-NodupBy tables patterns _ (add_matching-NodupBy x patterns result u)

-- With a pattern that is not empty, a name is chosen to be frozen exactly if one of the
-- comma-separated patterns matches a table of that name, and no name is chosen twice.
pub parse_table_pattern_for_freeze_chosen :
    (tables : List Table) (c : ℕ) (pattern : Text) (t : Table)
    → let chosen : List Table = parse_table_pattern_for_freeze tables (c ∷ pattern) in
      (any chosen (λ y. same_table y t)
        ≡ any tables (λ x. fits (split b',' (c ∷ pattern)) x && same_table x t))
      × NodupBy same_table chosen
unfolding parse_table_pattern_for_freeze
parse_table_pattern_for_freeze_chosen tables c pattern t = (
  any-choose_tables t tables (split b',' (c ∷ pattern)) [],
  choose_tables-NodupBy tables (split b',' (c ∷ pattern)) [] tt,
)
