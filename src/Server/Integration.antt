-- ===== src/Server/Integration.antt =====
-- The handlers under `/integration`, which ClickHouse calls with its `URL` table engine.
use clickhouse_backup.Base.{
  ℕ, Text, codes, ◌==◌, ◌++◌, ◌||◌, Option, none, some, List, [], ◌∷◌, Error, Result, ok, err,
  api_locked, error_text, if◌then◌else◌, split, join,
}
use clickhouse_backup.Server.Response.{Writer, line, fresh_writer, write, http_error}
use clickhouse_backup.Server.Status.{CommandInfo, start, stop}
use clickhouse_backup.Server.Api.{
  ApiServer, Operations, command_job, try_acquire, release, with_status, with_metrics,
  backup_started, backup_returned, count_success, count_failure,
}
use clickhouse_backup.Server.Handlers.{Request, Exchange, reply}

-- What `integrationPost` reads of the body: the first column of the second line, and its words.
pub data Posted : Type 0 where
  unreadable : Error → Posted
  no_names : Posted
  posted : Text → List Text → Posted

abbrev first_part : List Text → Text
first_part [] = []
first_part (part ∷ parts) = part

abbrev column_of : List Text → Posted
column_of (header ∷ values ∷ lines) =
    let column = first_part (split 9 values) in posted column (split b' ' column)
column_of _ = no_names

unfoldable pub read_post : Result Text → Posted
unfolding split
read_post (err e) = unreadable e
read_post (ok body) = column_of (split 10 body)

pub data Mode : Type 0 where
  in_background : Mode
  in_foreground : Mode
  unknown_command : Mode

-- The `switch` on the first word.
unfoldable pub mode_of : List Text → Mode
mode_of words =
    let word = first_part words in
    if word == codes "create" || word == codes "upload" || word == codes "download"
    then in_background
    else if word == codes "delete" || word == codes "freeze" || word == codes "clean"
    then in_foreground
    else unknown_command

abbrev pub program : Text
program = codes "clickhouse-backup"

abbrev pub fail_with : {W : Type 0} → Text → ℕ → ApiServer → W → Option (Exchange W)
fail_with message code api world = some (reply api world (http_error message code fresh_writer))

abbrev pub locked_message : Text
locked_message = error_text api_locked

module _ (O : Operations) where
  abbrev pub background :
      Request → Text → List Text → ApiServer → O.World → Option (Exchange O.World)
  background r column words api world = elim (try_acquire api) [
    | none ↦ fail_with locked_message 423 api world
    | some held ↦
        let metrics =
          backup_returned r.clock (count_success (backup_started r.clock held.metrics)) in
        some (record {
          api = release (with_metrics held metrics);
          world = world;
          writer = write (line (codes "acknowledged")) fresh_writer;
          job = some (command_job column words);
        })
  ]

  -- After the command has run: the counters, the answer, and the deferred `stop`, `Set`s and `Release`.
  unfoldable pub foreground_end :
      Request → Option Error → ApiServer → O.World → Option (Exchange O.World)
  foreground_end r none held world = elim (stop none (r.clock 4) held.status) [
    | none ↦ none
    | some log ↦
        let metrics = backup_returned r.clock (count_success held.metrics) in
        some (
          reply (release (with_metrics (with_status held log) metrics)) world
            (write (line (codes "OK")) fresh_writer))
  ]
  foreground_end r (some e) held world = elim (stop (some e) (r.clock 4) held.status) [
    | none ↦ none
    | some log ↦
        let metrics = backup_returned r.clock (count_failure held.metrics) in
        some (
          reply (release (with_metrics (with_status held log) metrics)) world
            (http_error (error_text e) 400 fresh_writer))
  ]

  abbrev pub foreground :
      Request → Text → List Text → ApiServer → O.World → Option (Exchange O.World)
  foreground r column words api world = elim (try_acquire api) [
    | none ↦ fail_with locked_message 423 api world
    | some held ↦
        let started = with_metrics held (backup_started r.clock held.metrics) in
        let (world', failure) = O.run_command (program ∷ words) world in
        foreground_end r failure (with_status started (start column (r.clock 3) started.status))
          world'
  ]

  unfoldable pub run_posted : Request → Posted → ApiServer → O.World → Option (Exchange O.World)
  run_posted r (unreadable e) api world = fail_with (error_text e) 500 api world
  run_posted r no_names api world = fail_with (codes "use TSVWithNames format") 400 api world
  run_posted r (posted column words) api world = elim (mode_of words) [
    | in_background ↦ background r column words api world
    | in_foreground ↦ foreground r column words api world
    | unknown_command ↦ fail_with (codes "bad command '" ++ column ++ codes "'") 400 api world
  ]

  unfoldable pub integration_post : Request → ApiServer → O.World → Option (Exchange O.World)
  integration_post r api world = run_posted r (read_post r.body) api world

abbrev tab : Text
tab = 9 ∷ []

log_line : CommandInfo → Text
log_line c = join tab (c.command ∷ c.start ∷ c.finish ∷ c.status ∷ c.error ∷ [])

write_log : List CommandInfo → Writer → Writer
write_log [] w = w
write_log (c ∷ commands) w = write_log commands (write (line (log_line c)) w)

unfoldable pub integration_backup_log : {W : Type 0} → ApiServer → W → Exchange W
unfolding write_log log_line
integration_backup_log api world = reply api world (
    write_log api.status (
      write
        (line (
          join tab (
            codes "command"
            ∷ codes "start"
            ∷ codes "finish"
            ∷ codes "status"
            ∷ codes "error"
            ∷ [])))
        fresh_writer))
