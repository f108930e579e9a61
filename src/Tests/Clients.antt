-- ===== src/Tests/Clients.antt =====
-- Storage clients over small services, commands, the loading of a configuration and the server's loop.
use clickhouse_backup.Base.{
  ℕ, ◌≤◌, Text, codes, ◌≡◌, refl, Option, none, some, List, [], ◌∷◌, ◌++◌, map, true, false, Result,
  ok, err, not_found, errorf, arith,
}
use clickhouse_backup.Config.{Config, default_config}
use clickhouse_backup.Config.Validity.{IsValid}
use clickhouse_backup.Config.Loading.{Sources, load_config, load_config-IsValid}
use clickhouse_backup.Clients.{answered, refused, all_pages}
use clickhouse_backup.Clients.Azure.{AzureApi, BlobItem, item_file, walk_from}
use clickhouse_backup.Clients.Paging.{walk_from-IsListing}

abbrev blob : Text → BlobItem
blob name = record { name = name; content_length = some 1; last_modified = 0 }

-- The listing has two segments.
abbrev two_segments : AzureApi
two_segments = record {
  State = Unit;
  key_error = λ name key. none;
  url_error = λ url. none;
  create_container = λ credential url name s. (s, answered tt);
  decode_base64 = λ text. ok text;
  set_container = λ credential url name key s. s;
  get_properties = λ s key. refused (codes "BlobNotFound") (errorf (codes "404"));
  download = λ s key. err not_found;
  upload_stream = λ size buffers key content s. (s, none);
  delete = λ key s. (s, none);
  list_segment = λ s marker prefix. elim marker [
    | none ↦ ok (record { items = blob (codes "a") ∷ []; next_marker = some (codes "m") })
    | some m ↦ ok (record { items = blob (codes "b") ∷ []; next_marker = some [] })
  ];
}

walk_from-IsListing_example : walk_from two_segments 2 [] none tt ≡ (
  all_pages (map (map item_file) ((blob (codes "a") ∷ []) ∷ (blob (codes "b") ∷ []) ∷ [])),
  none,
)
walk_from-IsListing_example =
    walk_from-IsListing two_segments tt [] ((blob (codes "a") ∷ []) ∷ (blob (codes "b") ∷ []) ∷ [])
      none 2 (refl, some (codes "m"), refl, (refl, some [], refl, refl)) (omega arith)

abbrev empty_file : Sources
empty_file = record {
  read_file = λ location. ok [];
  unmarshal = λ text config. ok config;
  environment = λ config. ok config;
}

load_config-IsValid_example : IsValid default_config
unfolding load_config clickhouse_backup.Config.validate_config
    clickhouse_backup.Config.Formats.get_archive_writer clickhouse_backup.Base.◌==◌ default_config
    clickhouse_backup.Config.Durations.parse_duration
load_config-IsValid_example =
    load_config-IsValid empty_file (codes "config.yml") [] default_config refl refl
