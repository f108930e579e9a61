-- ===== src/Server/Status/Log.antt =====
-- What `start` and `stop` do to the log.
use clickhouse_backup.Base.{ℕ, Text, ◌≡◌, refl, ◌++◌, Option, some, [], ◌∷◌, Error}
use clickhouse_backup.Server.Status.{
  CommandInfo, AsyncStatus, start, stop, close_command, in_progress,
}
use clickhouse_backup.Base.Clock.{api_time}

-- `stop` changes the last command and no other.
pub stop-append :
    (failure : Option Error) (now : ℕ) (before : AsyncStatus) (c : CommandInfo)
    → stop failure now (before ++ (c ∷ [])) ≡ some (before ++ (close_command failure now c ∷ []))
unfolding stop
stop-append failure now [] c = refl
stop-append failure now (b ∷ []) c = refl
stop-append failure now (b ∷ d ∷ before) c = rw (stop-append failure now (d ∷ before) c)

abbrev pub started : Text → ℕ → CommandInfo
started command now = record {
  command = command;
  status = in_progress;
  start = api_time now;
  finish = [];
  error = [];
}

-- A command that is started and stopped with nothing in between.
pub stop-start :
    (failure : Option Error) (now now' : ℕ) (command : Text) (log : AsyncStatus)
    → stop failure now' (start command now log)
      ≡ some (log ++ (close_command failure now' (started command now) ∷ []))
unfolding start
stop-start failure now now' command log = stop-append failure now' log (started command now)
