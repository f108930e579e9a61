-- ===== src/Server/Threads.antt =====
-- The server as handlers and goroutines that interleave: what each atomic step does to the state that
-- they share. An operation may fail or succeed at any step, so its outcome is left open.
pub mod Invariant
pub mod Overlap
use clickhouse_backup.Base.{
  ℕ, Text, Bool, true, false, ◌≡◌, ◌++◌, Option, none, some, List, [], ◌∷◌, Error,
}
use clickhouse_backup.Config.{Config}
use clickhouse_backup.Server.Status.{AsyncStatus, start, stop}
use clickhouse_backup.Server.Api.{
  ApiServer, Job, create_job, command_job, upload_job, download_job, try_acquire, release,
  with_status, with_metrics, setup_metrics, backup_started, backup_returned, count_success,
}
use clickhouse_backup.Server.Jobs.{begin_job, finish_job}

-- `inside` names the operations of the handlers between `TryAcquire` and `Release`; `waiting` and
-- `running` are the goroutines before and after their call of `start`.
pub record System : Type 0 where
  pub api : ApiServer
  pub inside : List Text
  pub waiting : List Job
  pub running : List Job

-- `Server`, before its first request.
unfoldable pub new_server : Config → List Text → ApiServer
new_server config routes = record {
  config = config;
  locked = false;
  restarts = 0;
  status = [];
  metrics = setup_metrics;
  routes = routes;
}

abbrev pub new_system : Config → List Text → System
new_system config routes = record {
  api = new_server config routes;
  inside = [];
  waiting = [];
  running = [];
}

abbrev pub accepted : (ℕ → ℕ) → ApiServer → ApiServer
accepted clock held =
    release (
      with_metrics held (backup_returned clock (count_success (backup_started clock held.metrics))))

pub data Step (s : System) : System → Type 0 where
  -- The handlers of `upload` and `download`.
  transfer : (job : Job) → Step s (record s { waiting = s.waiting ++ (job ∷ []) })
  -- The handler of `create` and the posted commands that run in the background: the lock is taken
  -- and given back, and the operation waits.
  background :
      (job : Job) (clock : ℕ → ℕ) (held : ApiServer)
      → try_acquire s.api ≡ some held
      → Step s (record s { api = accepted clock held; waiting = s.waiting ++ (job ∷ []) })
  -- A handler that runs its operation under the lock: up to the call of the operation.
  enter :
      (operation : Text) (now : ℕ) (held : ApiServer)
      → try_acquire s.api ≡ some held
      → Step s (record s {
        api = with_status held (start operation now held.status);
        inside = operation ∷ s.inside;
      })
  -- And from its return on.
  leave :
      (operation : Text) (others : List Text) (failure : Option Error) (now : ℕ) (log : AsyncStatus)
      → s.inside ≡ operation ∷ others
      → stop failure now s.api.status ≡ some log
      → Step s (record s { api = release (with_status s.api log); inside = others })
  -- The handler of `freeze` returns without `stop`.
  leave_unstopped :
      (operation : Text) (others : List Text)
      → s.inside ≡ operation ∷ others
      → Step s (record s { api = release s.api; inside = others })
  -- The handler of a configuration.
  update :
      (config : Config) (held : ApiServer)
      → try_acquire s.api ≡ some held
      → Step s (record s { api = release (record held { config = config }) })
  -- A goroutine calls `start`.
  begin :
      (job : Job) (now : ℕ) (before later : List Job)
      → s.waiting ≡ before ++ (job ∷ later)
      → Step s (record s {
        api = begin_job job now s.api;
        waiting = before ++ later;
        running = job ∷ s.running;
      })
  -- Its operation returns.
  finish :
      (job : Job) (failure : Option Error) (now : ℕ) (before later : List Job) (api : ApiServer)
      → s.running ≡ before ++ (job ∷ later)
      → finish_job job failure now s.api ≡ some api
      → Step s (record s { api = api; running = before ++ later })

pub data Reach (s : System) : System → Type 0 where
  here : Reach s s
  next : {t u : System} → Reach s t → Step t u → Reach s u
