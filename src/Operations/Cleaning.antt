-- ===== src/Operations/Cleaning.antt =====
-- What `Clean` of pkg/chbackup/backup.go leaves to `Freeze`.
use clickhouse_backup.Base.{
  Text, ◌≡◌, refl, sym, ap, ◌∙◌, true, Option, none, some, List, [], ◌∷◌, ◌++◌, codes, Error,
  is_not_exist, Result, ok, err, arith, Bool-cases, Result-cases, inl, inr,
}
use clickhouse_backup.Base.Paths.{path_join, is_empty}
use clickhouse_backup.Base.Steps.{explain, for_each, then_do-none}
use clickhouse_backup.Config.{Config}
use clickhouse_backup.Local.{Machine, FileInfo, get_data_path}
use clickhouse_backup.Files.{Disk, clean_dir}
use clickhouse_backup.Freeze.{shadow_error}
use clickhouse_backup.Operations.{clean, clean_below, clean_found, shadow_below}

-- What the removal of a name does to its directory, which lists each name once, and what a missing
-- directory is to a reader.
pub record DirectoryLaws (L : Machine) (dir : Text) : Type 0 where
  pub read_names-remove_all :
      (s s' : L.State) (name : Text) (names : List Text)
      → L.remove_all s (path_join (dir ∷ name ∷ [])) ≡ (s', none)
      → L.read_names s dir ≡ ok (name ∷ names)
      → L.read_names s' dir ≡ ok names
  pub read_names-stat :
      (s : L.State) (e : Error)
      → L.stat s dir ≡ err e
      → is_not_exist e ≡ true
      → (e' : Error) × (L.read_names s dir ≡ err e') × (is_not_exist e' ≡ true)

module _ (L : Machine) (D : Disk L) (dir : Text) (W : DirectoryLaws L dir) where
  read_names-for_each :
      (names : List Text) (s s' : L.State)
      → L.read_names s dir ≡ ok names
      → for_each (λ name t. L.remove_all t (path_join (dir ∷ name ∷ []))) names s ≡ (s', none)
      → L.read_names s' dir ≡ ok []
  unfolding for_each
  read_names-for_each [] s s' read h = ap (λ r. L.read_names r.0 dir) (sym h) ∙ read
  read_names-for_each (name ∷ names) s s' read h =
      let (fine, rest) = then_do-none _ _ s' h in
      let next : L.State = (L.remove_all s (path_join (dir ∷ name ∷ []))).0 in
      read_names-for_each names next s'
        (W.read_names-remove_all s next name names (ap (λ x. (next, x)) fine) read) rest

  read_names-clean_dir :
      (s s' : L.State) → clean_dir L dir s ≡ (s', none) → L.read_names s' dir ≡ ok []
  unfolding clean_dir
  read_names-clean_dir s s' h = elim (Result-cases (L.read_names s dir)) [
    | inr (e, failed) ↦ absurd (ground (arith, h, failed))
    | inl (names, read) ↦ read_names-for_each names s s' read (ground (arith, h, read))
  ]

  explain-none :
      (context : Text) (r : L.State × Option Error) (s' : L.State)
      → explain context r ≡ (s', none)
      → r ≡ (s', none)
  explain-none context (s, none) s' h = h
  explain-none context (s, some e) s' h = absurd (ground (arith, h))

  shadow_error-cleaned :
      (context : Text) (s s' : L.State)
      → explain context (clean_dir L dir s) ≡ (s', none)
      → shadow_error dir (L.read_names s' dir) ≡ none
  shadow_error-cleaned context s s' h =
      ap (shadow_error dir) (read_names-clean_dir s s' (explain-none context _ s' h))

  shadow_error-missing :
      (s : L.State) (e : Error)
      → L.stat s dir ≡ err e
      → is_not_exist e ≡ true
      → shadow_error dir (L.read_names s dir) ≡ none
  shadow_error-missing s e found missing =
      let (e', read, missing') = W.read_names-stat s e found missing in rw (read, missing') refl

  shadow_error-clean_found :
      (found : Result FileInfo) (s s' : L.State)
      → L.stat s dir ≡ found
      → clean_found L D dir found s ≡ (s', none)
      → shadow_error dir (L.read_names s' dir) ≡ none
  shadow_error-clean_found (ok info) s s' is h =
      shadow_error-cleaned (codes "can't clean '" ++ dir ++ codes "'") s s' h
  shadow_error-clean_found (err e) s s' is h = elim (Bool-cases (is_not_exist e)) [
    | inl missing ↦
        let same : s ≡ s' = ground (arith, h, missing) in
        rw (sym same) (shadow_error-missing s e is missing)
    | inr other ↦
        shadow_error-cleaned (codes "can't clean '" ++ dir ++ codes "'") s s'
          (ground (arith, h, other))
  ]

module _ (L : Machine) (D : Disk L) where
  -- Where the removal of a name takes it out of the directory `shadow`: after a `Clean` without
  -- an error that directory is no obstacle to `Freeze` any more.
  pub shadow_error-clean :
      (config : Config) (data_path : Text) (s s' : L.State)
      → get_data_path L config s ≡ some data_path
      → DirectoryLaws L (shadow_below data_path)
      → clean L D config s ≡ some (s', none)
      → shadow_error (shadow_below data_path) (L.read_names s' (shadow_below data_path)) ≡ none
  unfolding clean
  shadow_error-clean config data_path s s' asked W h =
      let path : Text = shadow_below data_path in
      let run : clean_below L D data_path s ≡ (s', none) =
        let same : clean L D config s ≡ some (clean_below L D data_path s) = rw asked refl in cc in
      elim (Bool-cases (is_empty data_path)) [
        | inl unknown ↦ absurd (ground (arith, run, unknown))
        | inr known ↦
            shadow_error-clean_found L D path W (L.stat s path) s s' refl
              (ground (arith, run, known))
      ]
