-- ===== src/Server/Handlers.antt =====
-- The handlers of the routes under `/backup`. A handler gives `none` where it panics.
pub mod Queries
pub mod Outcomes
pub mod Secrets
use clickhouse_backup.Base.{
  ℕ, ◌+◌, Text, codes, ◌==◌, ◌++◌, Bool, true, false, ◌||◌, Option, none, some, List, [], ◌∷◌, map,
  Error, Result, ok, err, api_locked, errorf, if◌then◌else◌, is_not_exist, error_text,
}
use clickhouse_backup.Base.Clock.{backup_time, api_time}
use clickhouse_backup.Base.Maps.{lookup}
use clickhouse_backup.Config.{Config, default_config, validate_config}
use clickhouse_backup.Retention.{Backup}
use clickhouse_backup.Server.Response.{
  Writer, Chunk, json, json_list, line, yaml, fresh_writer, write, write_error, send_response,
  optional,
}
use clickhouse_backup.Server.Status.{start, stop, CommandInfo}
use clickhouse_backup.Server.Api.{
  ApiServer, Operations, Job, create_job, upload_job, download_job, try_acquire, release,
  with_status, with_metrics, backup_started, backup_returned, count_success,
}

-- `query` and `vars` hold what the handlers read of the URL: the first value of each key.
pub record Request : Type 0 where
  pub url_path : Text
  pub query : List (Text × Text)
  pub vars : List (Text × Text)
  pub body : Result Text
  pub clock : ℕ → ℕ

-- The state after a handler, what it wrote and the goroutine that it left behind.
pub record Exchange (W : Type 0) : Type 0 where
  pub api : ApiServer
  pub world : W
  pub writer : Writer
  pub job : Option Job

abbrev pub text_or : Option Text → Text → Text
text_or none d = d
text_or (some v) d = v

abbrev pub is_some : Option Text → Bool
is_some none = false
is_some (some v) = true

abbrev pub reply : {W : Type 0} → ApiServer → W → Writer → Exchange W
reply api world writer = record { api = api; world = world; writer = writer; job = none }

-- The answer where another operation holds the lock.
abbrev pub refuse : {W : Type 0} → ℕ → Text → ApiServer → W → Option (Exchange W)
refuse code operation api world =
    some (reply api world (write_error code operation api_locked fresh_writer))

-- The answer of an operation that has run, and the release of the lock.
abbrev pub conclude :
    {W : Type 0} → Text → List (Text × Text) → ApiServer → W → Option Error → Exchange W
conclude operation success api world none =
    reply (release api) world (send_response 200 (json success) fresh_writer)
conclude operation success api world (some e) =
    reply (release api) world (write_error 500 operation e fresh_writer)

-- `api.status.stop(err)` on the way, which panics on an empty log.
abbrev pub stopped :
    {W : Type 0}
    → Text
    → List (Text × Text)
    → ℕ
    → ApiServer
    → W
    → Option Error
    → Option (Exchange W)
stopped operation success now api world failure = elim (stop failure now api.status) [
  | none ↦ none
  | some log ↦ some (conclude operation success (with_status api log) world failure)
]

abbrev pub outcome : Text → Text → List (Text × Text)
outcome status operation = (codes "status", status) ∷ (codes "operation", operation) ∷ []

abbrev pub create_answer : Text → Writer
create_answer name =
    send_response 201
      (json (outcome (codes "acknowledged") (codes "create") ++ ((codes "backup_name", name) ∷ [])))
      fresh_writer

abbrev flag : Bool → Text
flag true = codes "true"
flag false = codes "false"

abbrev upload_answer : Text → Text → Writer
upload_answer name diff_from =
    send_response 200
      (json (
        outcome (codes "acknowledged") (codes "upload")
        ++ ((codes "backup_name", name) ∷ optional (codes "backup_from") diff_from)
        ++ ((codes "diff", flag (if diff_from == [] then false else true)) ∷ [])))
      fresh_writer

module _ (O : Operations) where
  unfoldable pub http_create_handler : Request → ApiServer → O.World → Option (Exchange O.World)
  http_create_handler r api world = elim (try_acquire api) [
    | none ↦ refuse 423 (codes "create") api world
    | some held ↦
        let pattern = text_or (lookup (codes "table") r.query) [] in
        let name = text_or (lookup (codes "name") r.query) (backup_time (r.clock 3)) in
        let metrics =
          backup_returned r.clock (count_success (backup_started r.clock held.metrics)) in
        some (record {
          api = release (with_metrics held metrics);
          world = world;
          writer = create_answer name;
          job = some (create_job name pattern);
        })
  ]

  -- `stop` is never called here: the command stays in progress.
  unfoldable pub http_freeze_handler : Request → ApiServer → O.World → Option (Exchange O.World)
  http_freeze_handler r api world = elim (try_acquire api) [
    | none ↦ refuse 423 (codes "freeze") api world
    | some held ↦
        let pattern = text_or (lookup (codes "table") r.query) [] in
        let (world', failure) = O.freeze held.config pattern world in
        some (
          conclude (codes "freeze") (outcome (codes "success") (codes "freeze"))
            (with_status held (start (codes "freeze") (r.clock 0) held.status)) world' failure)
  ]

  unfoldable pub http_clean_handler : Request → ApiServer → O.World → Option (Exchange O.World)
  http_clean_handler r api world = elim (try_acquire api) [
    | none ↦ refuse 423 (codes "clean") api world
    | some held ↦
        let (world', failure) = O.clean held.config world in
        stopped (codes "clean") (outcome (codes "success") (codes "clean")) (r.clock 1)
          (with_status held (start (codes "clean") (r.clock 0) held.status)) world' failure
  ]

  -- No lock is taken.
  unfoldable pub http_upload_handler : Request → ApiServer → O.World → Option (Exchange O.World)
  http_upload_handler r api world =
      let diff_from = text_or (lookup (codes "diff-from") r.query) [] in
      let name = text_or (lookup (codes "name") r.vars) [] in
      some (record {
        api = api;
        world = world;
        writer = upload_answer name diff_from;
        job = some (upload_job name diff_from);
      })

  unfoldable pub http_restore_handler : Request → ApiServer → O.World → Option (Exchange O.World)
  http_restore_handler r api world = elim (try_acquire api) [
    | none ↦ refuse 423 (codes "restore") api world
    | some held ↦
        let name = text_or (lookup (codes "name") r.vars) [] in
        let pattern = text_or (lookup (codes "table") r.query) [] in
        let schema_only = is_some (lookup (codes "schema") r.query) in
        let data_only = is_some (lookup (codes "data") r.query) in
        let drop_table =
          is_some (lookup (codes "drop") r.query) || is_some (lookup (codes "rm") r.query) in
        let (world', failure) =
          O.restore held.config name pattern schema_only data_only drop_table world in
        stopped (codes "restore")
          (outcome (codes "success") (codes "restore") ++ ((codes "backup_name", name) ∷ []))
          (r.clock 1) (with_status held (start (codes "restore") (r.clock 0) held.status)) world'
          failure
  ]

  -- No lock is taken.
  unfoldable pub http_download_handler : Request → ApiServer → O.World → Option (Exchange O.World)
  http_download_handler r api world =
      let name = text_or (lookup (codes "name") r.vars) [] in
      some (record {
        api = api;
        world = world;
        writer =
            send_response 200
              (json (
                outcome (codes "acknowledged") (codes "download")
                ++ ((codes "backup_name", name) ∷ [])))
              fresh_writer;
        job = some (download_job name);
      })

  -- The `switch` of `httpDeleteHandler`.
  unfoldable pub delete_from : Text → Text → Config → O.World → O.World × Option Error
  delete_from place name config world =
      if place == codes "local"
      then O.remove_backup_local config name world
      else if place == codes "remote"
      then O.remove_backup_remote config name world
      else (world, some (errorf (codes "Backup location must be 'local' or 'remote'")))

  unfoldable pub http_delete_handler : Request → ApiServer → O.World → Option (Exchange O.World)
  http_delete_handler r api world = elim (try_acquire api) [
    | none ↦ refuse 423 (codes "delete") api world
    | some held ↦
        let name = text_or (lookup (codes "name") r.vars) [] in
        let place = text_or (lookup (codes "where") r.vars) [] in
        let (world', failure) = delete_from place name held.config world in
        stopped (codes "delete")
          (outcome (codes "success") (codes "delete")
            ++ ((codes "backup_name", name) ∷ (codes "location", place) ∷ []))
          (r.clock 1) (with_status held (start (codes "delete") (r.clock 0) held.status)) world'
          failure
  ]
