-- ===== src/Clickhouse/Grouping.antt =====
-- How `GetBackupTables` of pkg/chbackup/clickhouse.go groups the parts of a backup into tables.
use clickhouse_backup.Base.{
  Text, ◌==◌, ==_iff, ◌≡◌, refl, sym, ap, ◌∙◌, Bool, true, false, ◌&&◌, Option, none, some, Error,
  List, [], ◌∷◌, ◌++◌, map, keep_if, append-nil, append_assoc, length, nat_beq, Result, ok, err,
  arith, Bool-cases, inl, inr, if◌then◌else◌,
}
use clickhouse_backup.Base.Maps.{lookup, map_set, lookup-map_set}
use clickhouse_backup.Config.{Config}
use clickhouse_backup.Local.{Machine, FileInfo}
use clickhouse_backup.Files.{Disk, Walked, is_directory, is_clickhouse_shadow}
use clickhouse_backup.Tables.{BackupTable, BackupPartition}
use clickhouse_backup.Clickhouse.Saved.{
  Places, Saved, part_at, partitions_of, with_partition, saved_name, add_part, parts_below,
  add_directory, places, unless_walk_failed, saved_at, saved_below, shadow_in_backup,
  get_backup_tables, add_walked_parts,
}

with_partition-partitions :
    (database name : Text) (partition : BackupPartition) (found : Option BackupTable)
    → (with_partition database name partition found).partitions
      ≡ partitions_of found ++ (partition ∷ [])
with_partition-partitions database name partition none = refl
with_partition-partitions database name partition (some t) = refl

-- What the map holds at a name after another partition.
lookup-with_partition :
    (at key database name : Text) (partition : BackupPartition) (saved : Saved)
    → partitions_of
        (lookup key (map_set at (with_partition database name partition (lookup at saved)) saved))
      ≡ partitions_of (lookup key saved) ++ (if at == key then partition ∷ [] else [])
lookup-with_partition at key database name partition saved = elim (Bool-cases (at == key)) [
  | inl e ↦
      rw (lookup-map_set at key (with_partition database name partition (lookup at saved)) saved, e)
        (with_partition-partitions database name partition (lookup at saved)
          ∙ ap (λ k. partitions_of (lookup k saved) ++ (partition ∷ [])) ((==_iff at key).0 e))
  | inr e ↦
      rw (lookup-map_set at key (with_partition database name partition (lookup at saved)) saved, e)
        (sym (append-nil _))
]

unless_walk_failed-ok :
    (failure : Option Error) (rest : Result Saved) (saved : Saved)
    → unless_walk_failed failure rest ≡ ok saved
    → rest ≡ ok saved
unless_walk_failed-ok none rest saved h = h
unless_walk_failed-ok (some e) rest saved h = cc

append-map-if {ℓ κ} :
    {A : Type ℓ} {B : Type κ} (b : Bool) (f : A → B) (x : A) (xs : List A) (ys : List B)
    → (ys ++ (if b then f x ∷ [] else [])) ++ map f xs ≡ ys ++ map f (if b then x ∷ xs else xs)
append-map-if true f x xs ys = append_assoc ys (f x ∷ []) (map f xs)
append-map-if false f x xs ys = ap (λ l. l ++ map f xs) (append-nil ys)

module _ (P : Places) (shadow_path : Text) where
  -- The directory is a part of the table.
  abbrev pub is_part : Text → Walked → Bool
  is_part key w =
      let parts = parts_below shadow_path w.path in
      is_directory w.kind && nat_beq (length parts) P.total && saved_name P parts == key

  abbrev pub partition_at : Walked → BackupPartition
  partition_at w = record { name = part_at (parts_below shadow_path w.path) P.part; path = w.path }

  lookup-add_directory :
      (key : Text) (w : Walked) (saved : Saved)
      → partitions_of (
          lookup key
            (if is_directory w.kind then add_directory P shadow_path w.path saved else saved))
        ≡ partitions_of (lookup key saved) ++ (if is_part key w then partition_at w ∷ [] else [])
  unfolding add_part add_directory
  lookup-add_directory key w saved =
      let parts : List Text = parts_below shadow_path w.path in
      elim (Bool-cases (is_directory w.kind)) [
        | inr e ↦ rw e (sym (append-nil _))
        | inl e ↦ elim (Bool-cases (nat_beq (length parts) P.total)) [
          | inr e' ↦ rw (e, e') (sym (append-nil _))
          | inl e' ↦
              rw (e, e') (lookup-with_partition (saved_name P parts) key _ _ (partition_at w) saved)
        ]
      ]

  lookup-add_walked_parts :
      (key : Text) (walked : List Walked) (saved saved' : Saved)
      → add_walked_parts P shadow_path walked saved ≡ ok saved'
      → partitions_of (lookup key saved')
        ≡ partitions_of (lookup key saved) ++ map partition_at (keep_if (is_part key) walked)
  unfolding add_walked_parts
  lookup-add_walked_parts key [] saved saved' h =
      let same : saved ≡ saved' = cc in
      ap (λ m. partitions_of (lookup key m)) (sym same) ∙ sym (append-nil _)
  lookup-add_walked_parts key (w ∷ walked) saved saved' h =
      lookup-add_walked_parts key walked _ saved'
        (unless_walk_failed-ok w.failure (add_walked_parts P shadow_path walked _) saved' h)
      ∙ ap (λ l. l ++ map partition_at (keep_if (is_part key) walked))
          (lookup-add_directory key w saved)
      ∙ append-map-if (is_part key w) partition_at w (keep_if (is_part key) walked) _

module _ (L : Machine) (D : Disk L) (data_path : Config → L.State → Result Text) where
  saved_at-ok :
      (shadow_path : Text) (r : Result FileInfo) (s : L.State) (saved : Saved)
      → saved_at L D data_path shadow_path r s ≡ ok saved
      → add_walked_parts
          (places (is_clickhouse_shadow L shadow_path s))
          shadow_path
          (D.walk s shadow_path)
          []
        ≡ ok saved
  saved_at-ok shadow_path (err e) s saved h = cc
  saved_at-ok shadow_path (ok info) s saved h = elim (Bool-cases info.is_dir) [
    | inl e ↦ ground (arith, h, e)
    | inr e ↦ absurd (ground (arith, h, e))
  ]

  -- If `GetBackupTables` succeeds, it holds under every name just the partitions of that table:
  -- the directories as deep below `shadow` as the layout of the backup says whose names there
  -- give the table, in the order of the walk.
  pub get_backup_tables-partitions :
      (config : Config) (backup_name path : Text) (s : L.State) (saved : Saved)
      → data_path config s ≡ ok path
      → get_backup_tables L D data_path config backup_name s ≡ ok saved
      → (key : Text)
      → let shadow_path : Text = shadow_in_backup L D data_path path backup_name in
        let P : Places = places (is_clickhouse_shadow L shadow_path s) in
        partitions_of (lookup key saved)
        ≡ map
            (partition_at P shadow_path)
            (keep_if (is_part P shadow_path key) (D.walk s shadow_path))
  unfolding get_backup_tables lookup
  get_backup_tables-partitions config backup_name path s saved known h key =
      let shadow_path : Text = shadow_in_backup L D data_path path backup_name in
      lookup-add_walked_parts (places (is_clickhouse_shadow L shadow_path s)) shadow_path key
        (D.walk s shadow_path) [] saved
        (saved_at-ok shadow_path (L.stat s shadow_path) s saved
          (ap (λ r. saved_below L D data_path backup_name r s) (sym known) ∙ h))
