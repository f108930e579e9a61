-- ===== src/Server/Jobs.antt =====
-- The goroutines that the handlers leave behind.
use clickhouse_backup.Base.{ℕ, Text, codes, Option, none, some, ◌∷◌, Error}
use clickhouse_backup.Config.{Config}
use clickhouse_backup.Server.Status.{start, stop}
use clickhouse_backup.Server.Api.{
  ApiServer, Operations, Job, create_job, command_job, upload_job, download_job, with_status,
  with_metrics, count_failure, Metrics,
}
use clickhouse_backup.Server.Integration.{program}

-- The text that the goroutine passes to `start`.
abbrev pub command_of : Job → Text
command_of (create_job name pattern) = codes "create"
command_of (command_job column words) = column
command_of (upload_job name diff_from) = codes "upload"
command_of (download_job name) = codes "download"

-- Only the goroutines of `create` and of the posted commands count a failure.
abbrev pub job_metrics : Job → Option Error → Metrics → Metrics
job_metrics (create_job name pattern) (some e) m = count_failure m
job_metrics (command_job column words) (some e) m = count_failure m
job_metrics job failure m = m

unfoldable pub begin_job : Job → ℕ → ApiServer → ApiServer
begin_job job now api = with_status api (start (command_of job) now api.status)

module _ (O : Operations) where
  -- The operation itself, with the configuration of the moment.
  unfoldable pub run_job : Job → Config → O.World → O.World × Option Error
  run_job (create_job name pattern) config world = O.create_backup config name pattern world
  run_job (command_job column words) config world = O.run_command (program ∷ words) world
  run_job (upload_job name diff_from) config world = O.upload config name diff_from world
  run_job (download_job name) config world = O.download config name world

unfoldable pub finish_job : Job → Option Error → ℕ → ApiServer → Option ApiServer
finish_job job failure now api = elim (stop failure now api.status) [
  | none ↦ none
  | some log ↦ some (with_metrics (with_status api log) (job_metrics job failure api.metrics))
]
