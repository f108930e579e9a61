-- ===== src/Server/Handlers/Queries.antt =====
-- The handlers that read: tables, lists, status, index and configuration; and the one that replaces
-- the configuration.
use clickhouse_backup.Base.{
  Error, ℕ, ◌+◌, Text, codes, ◌==◌, ◌++◌, Option, none, some, List, [], ◌∷◌, map, Result, ok, err,
  errorf, error_text, if◌then◌else◌, is_not_exist, join, decimal, nat_beq,
}
use clickhouse_backup.Base.Clock.{api_time}
use clickhouse_backup.Config.{Config, default_config, validate_config}
use clickhouse_backup.Retention.{Backup}
use clickhouse_backup.Server.Response.{
  Writer, json_list, line, yaml, fresh_writer, write, write_error, send_response, set_header,
  content_type, set_no_store, optional,
}
use clickhouse_backup.Server.Status.{CommandInfo}
use clickhouse_backup.Server.Api.{ApiServer, Operations, try_acquire, release}
use clickhouse_backup.Tables.{Table}
use clickhouse_backup.Server.Handlers.{Request, Exchange, reply, refuse}

abbrev table_fields : Table → List (Text × Text)
table_fields t =
    (codes "database", t.database)
    ∷ (codes "table", t.name)
    ∷ (codes "skip", if t.skip then codes "true" else codes "false")
    ∷ []

-- The local type `backup` of `httpListHandler`. A size of 0 is left out of the JSON.
pub record ListedBackup : Type 0 where
  pub name : Text
  pub created : Text
  pub size : ℕ
  pub location : Text

abbrev pub local_row : Backup → ListedBackup
local_row b = record {
  name = b.name;
  created = api_time b.date;
  size = 0;
  location = codes "local";
}

abbrev pub remote_row : Backup → ListedBackup
remote_row b = record {
  name = b.name;
  created = api_time b.date;
  size = b.size;
  location = codes "remote";
}

row_fields : ListedBackup → List (Text × Text)
row_fields b =
    ((codes "name", b.name) ∷ (codes "created", b.created) ∷ [])
    ++ (if nat_beq b.size 0 then [] else (codes "size", decimal b.size) ∷ [])
    ++ ((codes "location", b.location) ∷ [])

abbrev tab : Text
tab = 9 ∷ []

row_line : ListedBackup → Text
row_line b = join tab (b.name ∷ b.created ∷ decimal b.size ∷ b.location ∷ [])

write_lines : List Text → Writer → Writer
write_lines [] w = w
write_lines (l ∷ ls) w = write_lines ls (write (line l) w)

abbrev plain_headers : Writer → Writer
plain_headers w = set_no_store (set_header content_type (codes "text/plain; charset=UTF-8") w)

-- The rows of a list, or the error that the handler reports.
module _ (O : Operations) where
  unfoldable pub local_backups : Config → O.World → Result (List Backup)
  local_backups config world = elim (O.list_local_backups config world) [
    | ok backups ↦ ok backups
    | err e ↦ if is_not_exist e then ok [] else err e
  ]

  unfoldable pub listed_backups : Config → O.World → Result (List ListedBackup)
  listed_backups config world = elim (local_backups config world) [
    | err e ↦ err e
    | ok locals ↦
        let rows = map local_row locals in
        if config.general.remote_storage == codes "none"
        then ok rows
        else elim (O.get_remote_backups config world) [
          | err e ↦ err e
          | ok remotes ↦ ok (rows ++ map remote_row remotes)
        ]
  ]

  unfoldable pub http_list_handler : Request → ApiServer → O.World → Exchange O.World
  unfolding row_fields row_line write_lines
  http_list_handler r api world = elim (listed_backups api.config world) [
    | err e ↦ reply api world (write_error 500 (codes "list") e fresh_writer)
    | ok rows ↦ reply api world (
        if r.url_path == codes "/backup/list"
        then send_response 200 (json_list (map row_fields rows)) fresh_writer
        else write_lines
            (join tab (codes "name" ∷ codes "created" ∷ codes "size" ∷ codes "location" ∷ [])
              ∷ map row_line rows)
            fresh_writer)
  ]

  unfoldable pub http_tables_handler : Request → ApiServer → O.World → Exchange O.World
  http_tables_handler r api world = elim (O.get_tables api.config world) [
    | err e ↦ reply api world (write_error 500 (codes "tables") e fresh_writer)
    | ok tables ↦
        reply api world (send_response 200 (json_list (map table_fields tables)) fresh_writer)
  ]

-- A command with the fields that `omitempty` leaves.
abbrev command_fields : CommandInfo → List (Text × Text)
command_fields c =
    ((codes "command", c.command) ∷ (codes "status", c.status) ∷ optional (codes "start") c.start)
    ++ optional (codes "finish") c.finish
    ++ optional (codes "error") c.error

unfoldable pub http_backup_status_handler : {W : Type 0} → ApiServer → W → Exchange W
http_backup_status_handler api world =
    reply api world (send_response 200 (json_list (map command_fields api.status)) fresh_writer)

unfoldable pub http_root_handler : {W : Type 0} → ApiServer → W → Exchange W
unfolding write_lines
http_root_handler api world = reply api world (
    write_lines
      (codes "Documentation: https://github.com/AlexAkulov/clickhouse-backup#api-configuration"
        ∷ api.routes)
      (plain_headers fresh_writer))

-- The configuration is printed by `yaml.Marshal`, which does not fail on it.
unfoldable pub http_config_default_handler : {W : Type 0} → ApiServer → W → Exchange W
http_config_default_handler api world =
    reply api world (write (yaml default_config) (plain_headers fresh_writer))

abbrev pub stars : Text
stars = codes "***"

unfoldable pub mask_config : Config → Config
mask_config config = record config {
  click_house = record (config.click_house) { password = stars };
  api = record (config.api) { password = stars };
  s3 = record (config.s3) { secret_key = stars };
  gcs = record (config.gcs) { credentials_json = stars };
  cos = record (config.cos) { secret_key = stars };
  ftp = record (config.ftp) { password = stars };
}

unfoldable pub http_config_handler : {W : Type 0} → ApiServer → W → Exchange W
http_config_handler api world =
    reply api world (write (yaml (mask_config api.config)) (plain_headers fresh_writer))

-- What `httpConfigUpdateHandler` makes of a body.
pub data Update : Type 0 where
  refused : Error → Update
  accepted : Config → Update
  no_config : Update

-- `unmarshal` is `yaml.Unmarshal` onto a pointer to a given configuration, which `null` sets to `nil`:
-- that is `ok none`.
module _ (unmarshal : Text → Config → Result (Option Config)) where
  abbrev pub validated : Config → Result (Unit {0}) → Update
  validated config (err e) =
      refused (errorf (codes "error validating new config: " ++ error_text e))
  validated config (ok u) = accepted config

  -- The new configuration, or the error with which the handler refuses it.
  abbrev pub unmarshaled : Result (Option Config) → Update
  unmarshaled (err e) = refused (errorf (codes "error parsing new config: " ++ error_text e))
  unmarshaled (ok none) = no_config
  unmarshaled (ok (some config)) = validated config (validate_config config)

  unfoldable pub read_config : Result Text → Update
  read_config (err e) = refused (errorf (codes "reading body error: " ++ error_text e))
  read_config (ok body) = unmarshaled (unmarshal body default_config)

  -- `validateConfig` panics at `nil`. The send to `restart` waits for the loop of `Server`, with the
  -- lock held: `restarts` counts those that the loop has taken.
  unfoldable pub http_config_update_handler :
      {W : Type 0} → Request → ApiServer → W → Option (Exchange W)
  http_config_update_handler r api world = elim (try_acquire api) [
    | none ↦ refuse 503 (codes "update") api world
    | some held ↦ elim (read_config r.body) [
      | no_config ↦ none
      | refused e ↦
          some (reply (release held) world (write_error 400 (codes "update") e fresh_writer))
      | accepted config ↦ some (
          reply (release (record held { config = config; restarts = held.restarts + 1 })) world
            fresh_writer)
    ]
  ]
