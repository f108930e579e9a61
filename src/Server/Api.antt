-- ===== src/Server/Api.antt =====
-- The state of the server, its metrics and its lock, and the operations that it calls.
use clickhouse_backup.Base.{
  ℕ, ◌+◌, ◌-◌, Text, Bool, true, false, Option, none, some, List, Error, Result, if◌then◌else◌,
}
use clickhouse_backup.Base.Clock.{unix}
use clickhouse_backup.Config.{Config}
use clickhouse_backup.Retention.{Backup}
use clickhouse_backup.Server.Status.{AsyncStatus}
use clickhouse_backup.Tables.{Table}

-- The gauges and counters of `Metrics`. 0 = failed, 1 = success, 2 = unknown.
pub record Metrics : Type 0 where
  pub last_backup_success : ℕ
  pub last_backup_start : ℕ
  pub last_backup_end : ℕ
  pub last_backup_duration : ℕ
  pub successful_backups : ℕ
  pub failed_backups : ℕ

unfoldable pub setup_metrics : Metrics
setup_metrics = record {
  last_backup_success = 2;
  last_backup_start = 0;
  last_backup_end = 0;
  last_backup_duration = 0;
  successful_backups = 0;
  failed_backups = 0;
}

-- `locked` is the semaphore of weight 1; `restarts` counts the messages on the channel `restart`.
pub record ApiServer : Type 0 where
  pub config : Config
  pub locked : Bool
  pub restarts : ℕ
  pub status : AsyncStatus
  pub metrics : Metrics
  pub routes : List Text

-- The operations behind the handlers, over the state of the machine, the database and the storage.
pub record Operations : Type 1 where
  pub World : Type 0
  pub create_backup : Config → Text → Text → World → World × Option Error
  pub freeze : Config → Text → World → World × Option Error
  pub clean : Config → World → World × Option Error
  pub upload : Config → Text → Text → World → World × Option Error
  pub download : Config → Text → World → World × Option Error
  pub restore : Config → Text → Text → Bool → Bool → Bool → World → World × Option Error
  pub remove_backup_local : Config → Text → World → World × Option Error
  pub remove_backup_remote : Config → Text → World → World × Option Error
  pub get_tables : Config → World → Result (List Table)
  pub list_local_backups : Config → World → Result (List Backup)
  pub get_remote_backups : Config → World → Result (List Backup)
  pub run_command : List Text → World → World × Option Error

-- What a handler leaves to a goroutine.
pub data Job : Type 0 where
  create_job : Text → Text → Job
  command_job : Text → List Text → Job
  upload_job : Text → Text → Job
  download_job : Text → Job

-- `api.lock.TryAcquire(1)`
unfoldable pub try_acquire : ApiServer → Option ApiServer
try_acquire api = if api.locked then none else some (record api { locked = true })

-- `api.lock.Release(1)`
unfoldable pub release : ApiServer → ApiServer
release api = record api { locked = false }

abbrev pub with_status : ApiServer → AsyncStatus → ApiServer
with_status api status = record api { status = status }

abbrev pub with_metrics : ApiServer → Metrics → ApiServer
with_metrics api metrics = record api { metrics = metrics }

-- `clock n` is the n-th reading of the clock.
unfoldable pub backup_started : (ℕ → ℕ) → Metrics → Metrics
backup_started clock m = record m { last_backup_start = unix (clock 0) }

-- The two deferred `Set`s. Their arguments are computed by the `defer` statements, so they hold the
-- readings made there, not those of the return.
unfoldable pub backup_returned : (ℕ → ℕ) → Metrics → Metrics
backup_returned clock m = record m {
  last_backup_end = unix (clock 2);
  last_backup_duration = clock 1 - clock 0;
}

unfoldable pub count_success : Metrics → Metrics
count_success m = record m {
  successful_backups = m.successful_backups + 1;
  last_backup_success = 1;
}

unfoldable pub count_failure : Metrics → Metrics
count_failure m = record m { failed_backups = m.failed_backups + 1; last_backup_success = 0 }
