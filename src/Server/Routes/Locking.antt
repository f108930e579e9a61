-- ===== src/Server/Routes/Locking.antt =====
-- What every handler does to the lock, and when it refuses.
use clickhouse_backup.Base.{
  Text, ◌≡◌, Bool, true, false, Option, none, some, Result, ok, err, arith,
}
use clickhouse_backup.Config.{Config, default_config}
use clickhouse_backup.Server.Api.{ApiServer, Operations, try_acquire}
use clickhouse_backup.Server.Handlers.{
  Request, Exchange, http_create_handler, http_freeze_handler, http_clean_handler,
  http_restore_handler, http_delete_handler,
}
use clickhouse_backup.Server.Handlers.Queries.{http_config_update_handler, Update, no_config}
use clickhouse_backup.Server.Integration.{
  integration_post, Mode, unknown_command, posted, Posted, run_posted, read_post, mode_of,
}
use clickhouse_backup.Server.Routes.{
  Route, create, clean, freeze, restore, delete, config_update, actions_post, serve,
}

-- The handler returns, and leaves the lock as `locked` says.
abbrev pub LeavesLock : {W : Type 0} → Bool → Option (Exchange W) → Type 0
LeavesLock locked none = ⊥
LeavesLock locked (some x) = x.api.locked ≡ locked

-- `yaml.Unmarshal` makes `nil` of the body, as of `null`.
abbrev pub is_null : Result (Option Config) → Bool
is_null (ok none) = true
is_null _ = false

abbrev pub has_null : (Text → Config → Result (Option Config)) → Result Text → Bool
has_null unmarshal (err e) = false
has_null unmarshal (ok text) = is_null (unmarshal text default_config)

abbrev pub sends_null : (Text → Config → Result (Option Config)) → Route → Request → Bool
sends_null unmarshal config_update r = has_null unmarshal r.body
sends_null unmarshal _ r = false

abbrev is_update : Update → Bool
is_update no_config = false
is_update _ = true

module _ (O : Operations) where
  abbrev pub Refused : ApiServer → O.World → Option (Exchange O.World) → Type 0
  Refused api world none = ⊥
  Refused api world (some x) = (x.api ≡ api) × (x.world ≡ world) × (x.job ≡ none)

  abbrev pub is_run : Mode → Bool
  is_run unknown_command = false
  is_run _ = true

  abbrev pub is_known : Posted → Bool
  is_known (posted column words) = is_run (mode_of words)
  is_known _ = false

  run_posted-Refused :
      (r : Request) (p : Posted) (api : ApiServer) (world : O.World)
      → is_known p ≡ true
      → api.locked ≡ true
      → Refused api world (run_posted O r p api world)
  unfolding run_posted try_acquire
  run_posted-Refused r (posted column words) api world h busy = ground arith
  run_posted-Refused r _ api world h busy = cc

  -- The routes that take the lock, among the posted commands those that the server knows.
  abbrev pub takes_lock : Route → Request → Bool
  takes_lock create r = true
  takes_lock freeze r = true
  takes_lock clean r = true
  takes_lock restore r = true
  takes_lock delete r = true
  takes_lock config_update r = true
  takes_lock actions_post r = is_known (read_post r.body)
  takes_lock _ r = false

  -- While the lock is held, a route that takes it runs no operation: the states of the server and
  -- of the world stay as they are, and no goroutine is left.
  pub serve-Refused :
      (unmarshal : Text → Config → Result (Option Config)) (route : Route) (r : Request)
      (api : ApiServer) (world : O.World)
      → takes_lock route r ≡ true
      → api.locked ≡ true
      → Refused api world (serve O unmarshal route r api world)
  unfolding serve try_acquire
  serve-Refused unmarshal create r api world h busy = unfold http_create_handler in ground arith
  serve-Refused unmarshal freeze r api world h busy = unfold http_freeze_handler in ground arith
  serve-Refused unmarshal clean r api world h busy = unfold http_clean_handler in ground arith
  serve-Refused unmarshal restore r api world h busy = unfold http_restore_handler in ground arith
  serve-Refused unmarshal delete r api world h busy = unfold http_delete_handler in ground arith
  serve-Refused unmarshal config_update r api world h busy =
      unfold http_config_update_handler in ground arith
  serve-Refused unmarshal actions_post r api world h busy =
      unfold integration_post in run_posted-Refused r (read_post r.body) api world h busy
  serve-Refused unmarshal _ r api world h busy = cc
