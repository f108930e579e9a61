-- ===== src/Server/Loop.antt =====
-- The loop of `Server` in pkg/chbackup/server.go: it listens, and starts again at a restart or a signal.
use clickhouse_backup.Base.{Option, none, some, List, [], ◌∷◌, Error}
use clickhouse_backup.Config.{Config}

-- What happens while the server listens: a handler puts a new configuration in place, which is shared,
-- the `select` receives a restart or a signal, or `ListenAndServe` ends by itself.
pub data Event : Type 0 where
  configured : Config → Event
  restarted : Event
  hangup : Event
  terminate : Event
  broken : Event

-- The server listens with a configuration until it is closed.
pub data Action : Type 0 where
  listen : Config → Action
  close : Action

-- How the loop ends: with the result of the last `Close`, or with the exit of the process.
pub data Ending : Type 0 where
  closed : Option Error → Ending
  exited : Ending

-- What the loop does, once it listens, at the events that come, and how it ends: `none` where it waits
-- for more of them. `config` is the shared configuration.
unfoldable pub await_events : Option Error → Config → List Event → List Action × Option Ending
await_events closing config [] = ([], none)
await_events closing config (configured new ∷ events) = await_events closing new events
await_events closing config (restarted ∷ events) =
    let (actions, end) = await_events closing config events in
    (close ∷ listen config ∷ actions, end)
await_events closing config (hangup ∷ events) =
    let (actions, end) = await_events closing config events in
    (close ∷ listen config ∷ actions, end)
await_events closing config (terminate ∷ events) = (close ∷ [], some (closed closing))
await_events closing config (broken ∷ events) = ([], some exited)

unfoldable pub serve_loop : Option Error → Config → List Event → List Action × Option Ending
serve_loop closing config events =
    let (actions, end) = await_events closing config events in (listen config ∷ actions, end)
