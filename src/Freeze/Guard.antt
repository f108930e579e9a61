-- ===== src/Freeze/Guard.antt =====
-- When a freeze touches anything, and what it freezes.
use clickhouse_backup.Base.{
  ◌≡◌, sym, ap, ◌⊎◌, inl, inr, Text, codes, not, Option, none, some, List, [], ◌∷◌, ◌++◌, map,
  keep_if, append-nil, append_assoc, Error, ok, arith, Bool-cases,
}
use clickhouse_backup.Config.{Config}
use clickhouse_backup.Tables.{Table, full_name, parse_table_pattern_for_freeze, mark_skipped}
use clickhouse_backup.Freeze.{Freezer, shadow_of, shadow_error, freeze_all}

module _ (F : Freezer) where
  -- A freeze that is refused, or one that finds the directory `shadow` empty or missing.
  abbrev pub EndsGuarded : Config → Text → F.State → F.State × Option Error → Type 0
  EndsGuarded config pattern s end =
      ((e : Error) × (end ≡ (s, some e)))
      ⊎ ((path : Text) × (rows : List Table) × (F.data_path config s ≡ ok path)
          × (shadow_error (shadow_of path) (F.read_dir (shadow_of path) s) ≡ none)
          × (F.rows s ≡ ok rows)
          × (end
              ≡ freeze_all F
                  (parse_table_pattern_for_freeze (mark_skipped config.click_house.skip_tables rows)
                    pattern)
                  s))

-- A freezer whose state is the list of the tables frozen, and which refuses none of `tables`.
abbrev pub log_freezer : List Table → Freezer
log_freezer tables = record {
  State = List Text;
  connect = λ config s. none;
  data_path = λ config s. ok (codes "/data");
  read_dir = λ path s. ok [];
  rows = λ s. ok tables;
  freeze_table = λ t s. (s ++ (full_name t.database t.name ∷ []), none);
}

-- Where no freeze of a table is refused, the loop of `Freeze` freezes the tables that are not to
-- be skipped, each once and in order, and no others.
pub freeze_all-log_freezer :
    (server_tables tables : List Table) (s : List Text)
    → freeze_all (log_freezer server_tables) tables s
      ≡ (s ++ map (λ t. full_name t.database t.name) (keep_if (λ t. not t.skip) tables), none)
unfolding freeze_all
freeze_all-log_freezer server_tables [] s = ap (λ l. (l, none)) (sym (append-nil s))
freeze_all-log_freezer server_tables (t ∷ tables) s = elim (Bool-cases t.skip) [
  | inl skipped ↦ ground (arith, skipped, freeze_all-log_freezer server_tables tables s)
  | inr kept ↦
      let name : Text = full_name t.database t.name in
      let others : List Text =
        map (λ x. full_name x.database x.name) (keep_if (λ x. not x.skip) tables) in
      ground (
        arith,
        kept,
        freeze_all-log_freezer server_tables tables (s ++ (name ∷ [])),
        append_assoc s (name ∷ []) others,
      )
]
