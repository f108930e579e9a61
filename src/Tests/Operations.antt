-- ===== src/Tests/Operations.antt =====
-- Creating, cleaning, uploading and downloading, on small machines.
use clickhouse_backup.Base.{
  ℕ, suc, ◌≡◌, refl, Text, codes, ◌==◌, ==_refl, Bool, true, false, Option, none, some, List, [],
  ◌∷◌, ◌++◌, map, keep_if, any, All, NodupBy, pos, ℤ, Error, not_exist, Result, ok, err,
  if◌then◌else◌, arith,
}
use clickhouse_backup.Base.Maps.{lookup}
use clickhouse_backup.Base.Paths.{path_join}
use clickhouse_backup.Config.{Config, default_config}
use clickhouse_backup.Config.Formats.{tar, plain, tar_gz, gz}
use clickhouse_backup.Files.{Disk, Walked, directory, regular, is_regular, is_clickhouse_shadow}
use clickhouse_backup.Freeze.{shadow_error}
use clickhouse_backup.Local.{Machine, backup_path, get_data_path}
use clickhouse_backup.Remote.{BackupDestination, Files}
use clickhouse_backup.Remote.Destination.{s3, settings}
use clickhouse_backup.Clickhouse.{Connection}
use clickhouse_backup.Streams.{returned, archive_name}
use clickhouse_backup.Streams.Upload.{relative_to, pack}
use clickhouse_backup.Streams.Extraction.{destination}
use clickhouse_backup.Streams.Memory.{
  Store, memory_machine, memory_disk, memory_contents, memory_codec, memory_disk-NeverFails,
  memory_disk-FileLaws, memory_contents-HoldsFiles, memory_codec-CodecLaws,
}
use clickhouse_backup.Operations.{clean, shadow_below}
use clickhouse_backup.Operations.Cleaning.{DirectoryLaws, shadow_error-clean}
use clickhouse_backup.Operations.Transfer.{upload, download}
use clickhouse_backup.Operations.Exchange.{download-upload_backup}

abbrev path_of : Config → Store → Result Text
path_of config s = ok (codes "/d")

abbrev idle : Connection memory_machine
idle = record {
  ping = λ config s. none;
  exec = λ statement s. (s, none);
  select = λ query s. ok [];
  select_tables = λ query s. ok [];
}

abbrev shadow : Text
shadow = codes "/data/shadow"

abbrev remove_first : List Text → Text → List Text
remove_first [] path = []
remove_first (name ∷ names) path =
    let rest = name ∷ remove_first names path in
    if path_join (shadow ∷ name ∷ []) == path then names else rest

-- The state is the list of the names in the directory `shadow`.
abbrev shadow_machine : Machine
shadow_machine = record {
  State = List Text;
  ask_data_path = λ config s. some (ok (codes "/data"));
  read_names = λ s path. ok s;
  stat = λ s path. ok (record { is_dir = true; mod_time = 0 });
  remove_all = λ s path. (remove_first s path, none);
}

abbrev shadow_disk : Disk shadow_machine
shadow_disk = record {
  walk = λ s path. [];
  read_file = λ s path. err (not_exist path);
  same_file = λ s a b. false;
  mkdir_all = λ path s. (s, none);
  create_file = λ path content s. (s, none);
  rename = λ a b s. (s, none);
  link = λ a b s. (s, none);
  chown = λ path s. (s, none);
  write_temp = λ s. none;
}

removed :
    (s s' : List Text) (name : Text) (names : List Text)
    → shadow_machine.remove_all s (path_join (shadow ∷ name ∷ [])) ≡ (s', none)
    → shadow_machine.read_names s shadow ≡ ok (name ∷ names)
    → shadow_machine.read_names s' shadow ≡ ok names
removed [] s' name names h read = absurd (ground (arith, read))
removed (n ∷ ns) s' name names h read =
    ground (arith, h, read, ==_refl (path_join (shadow ∷ name ∷ [])))

shadow_laws : DirectoryLaws shadow_machine (shadow_below (codes "/data"))
unfolding path_join get_data_path default_config
shadow_laws = record {
  read_names-remove_all = removed;
  read_names-stat = λ s e found missing. absurd (ground (arith, found));
}

shadow_error-clean_example :
    shadow_error
      (shadow_below (codes "/data"))
      (shadow_machine.read_names [] (shadow_below (codes "/data")))
    ≡ none
unfolding clean get_data_path default_config clickhouse_backup.Files.clean_dir
    clickhouse_backup.Base.Steps.for_each ◌==◌ path_join
shadow_error-clean_example =
    shadow_error-clean shadow_machine shadow_disk default_config (codes "/data") (codes "1" ∷ []) []
      refl shadow_laws refl

abbrev files : Store
files = (codes "/data/backup/b/x", codes "1") ∷ []

abbrev bd : BackupDestination
bd = settings default_config s3

abbrev after : Store
after = (codes "b.tar.gz", memory_codec.encode (tar_gz (pos 1)) ((codes "x", codes "1") ∷ [])) ∷ []

apart :
    NodupBy
      (λ e f.
        destination (backup_path (codes "/data") (codes "b")) e
        == destination (backup_path (codes "/data") (codes "b")) f)
      (pack memory_machine memory_disk memory_codec
        (tar_gz (pos 1))
        (backup_path (codes "/data") (codes "b"))
        []
        (memory_disk.walk files (backup_path (codes "/data") (codes "b")))
        files).entries
unfolding pack lookup ◌==◌ path_join relative_to clickhouse_backup.Base.trim_prefix
    clickhouse_backup.Base.has_prefix
apart = (refl, tt)

download-upload_backup_example :
    (upload memory_machine memory_disk memory_codec memory_contents
        (λ m. m)
        default_config
        (codes "b")
        []
        (files, [])
      ≡ returned (files, after) none)
    × ((fuel : ℕ) (l₁ : Store)
        → get_data_path memory_machine default_config l₁ ≡ some (codes "/data")
        → (l₂ : Store) × (download memory_machine memory_disk memory_codec memory_contents
              (λ m. m)
              (suc fuel)
              default_config
              (codes "b")
              (l₁, after)
            ≡ returned (l₂, after) none)
          × All
              (λ w.
                is_regular w.kind ≡ true
                → (content : Text) × (memory_disk.read_file files w.path ≡ ok content)
                  × (memory_disk.read_file l₂ (
                        path_join (
                          backup_path (codes "/data") (codes "b")
                          ∷ relative_to (backup_path (codes "/data") (codes "b")) w.path
                          ∷ []))
                      ≡ ok content))
              (memory_disk.walk files (backup_path (codes "/data") (codes "b"))))
unfolding ◌==◌ default_config get_data_path
    clickhouse_backup.Remote.Destination.new_backup_destination
    clickhouse_backup.Remote.Destination.storage_named clickhouse_backup.Local.get_local_backup
    clickhouse_backup.Local.list_local_backups clickhouse_backup.Base.Sorting.sort_stable
    clickhouse_backup.Local.stat_all clickhouse_backup.Base.has_prefix path_join
    clickhouse_backup.Base.skip clickhouse_backup.Config.Formats.get_archive_writer
    clickhouse_backup.Config.Formats.get_archive_reader lookup pack relative_to
    clickhouse_backup.Base.trim_prefix clickhouse_backup.Base.Maps.map_set archive_name
    clickhouse_backup.Config.Formats.get_extension
download-upload_backup_example =
    download-upload_backup memory_machine memory_disk memory_codec memory_contents (λ m. m)
      memory_codec-CodecLaws memory_contents-HoldsFiles memory_disk-NeverFails memory_disk-FileLaws
      default_config s3 bd (tar_gz (pos 1)) gz (codes "b") (codes "/data") files [] after refl refl
      refl refl refl refl refl refl refl refl refl refl apart refl
