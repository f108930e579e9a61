-- ===== src/Server/Status.antt =====
-- The log of commands: `CommandInfo` and `AsyncStatus`. An instant stands for the text that
-- `Format(APITimeFormat)` makes of it.
pub mod Log
use clickhouse_backup.Base.{
  ℕ, Text, codes, ◌++◌, Option, none, some, List, [], ◌∷◌, Error, error_text,
}
use clickhouse_backup.Base.Clock.{api_time}

-- `Progress` is never set.
pub record CommandInfo : Type 0 where
  pub command : Text
  pub status : Text
  pub start : Text
  pub finish : Text
  pub error : Text

abbrev pub AsyncStatus : Type 0
AsyncStatus = List CommandInfo

abbrev pub in_progress : Text
in_progress = codes "in progress"

unfoldable pub start : Text → ℕ → AsyncStatus → AsyncStatus
start command now commands =
    commands
    ++ (record {
      command = command;
      status = in_progress;
      start = api_time now;
      finish = [];
      error = [];
    }
        ∷ [])

unfoldable pub close_command : Option Error → ℕ → CommandInfo → CommandInfo
close_command none now c = record c { status = codes "success"; finish = api_time now }
close_command (some e) now c = record c {
  status = codes "error";
  finish = api_time now;
  error = error_text e;
}

-- `stop` writes to the last command, whichever that is. On an empty log the index is -1, and it panics.
unfoldable pub stop : Option Error → ℕ → AsyncStatus → Option AsyncStatus
stop failure now [] = none
stop failure now (c ∷ []) = some (close_command failure now c ∷ [])
stop failure now (c ∷ d ∷ commands) = elim (stop failure now (d ∷ commands)) [
  | none ↦ none
  | some rest ↦ some (c ∷ rest)
]
