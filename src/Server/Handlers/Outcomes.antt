-- ===== src/Server/Handlers/Outcomes.antt =====
-- What the handlers that run an operation themselves leave behind.
use clickhouse_backup.Base.{
  ℕ, ◌≡◌, refl, Text, codes, ◌++◌, true, ◌||◌, Option, none, some, [], ◌∷◌, Error, errorf, ◌≢◌, ◌⊎◌,
  false, arith,
}
use mathlib.Core.Path.{sym, subst}
use clickhouse_backup.Base.Maps.{lookup}
use clickhouse_backup.Config.{Config}
use clickhouse_backup.Server.Status.{AsyncStatus, start, close_command}
use clickhouse_backup.Server.Status.Log.{started}
use clickhouse_backup.Server.Api.{ApiServer, Operations, try_acquire, release, with_status}
use clickhouse_backup.Server.Handlers.{
  Request, Exchange, text_or, http_freeze_handler, outcome, is_some, delete_from, conclude,
}

-- The log of a command that began at the first reading of the clock and ended at the second.
abbrev pub logged : Text → Option Error → Request → AsyncStatus → AsyncStatus
logged command failure r log =
    log ++ (close_command failure (r.clock 1) (started command (r.clock 0)) ∷ [])

abbrev pub code_of : Option Error → ℕ
code_of none = 200
code_of (some e) = 500

module _ (O : Operations) where
  -- A handler ran with the lock, gave it back, and closed its own entry.
  pub record IsOutcome (command : Text) (run : O.World × Option Error) (r : Request)
      (api : ApiServer) (x : Exchange O.World) : Type 0 where
    pub world : x.world ≡ run.0
    pub log : x.api.status ≡ logged command (run.1) r api.status
    pub unlocked : x.api.locked ≡ false
    pub metrics : x.api.metrics ≡ api.metrics

  abbrev pub IsSome : (Exchange O.World → Type 0) → Option (Exchange O.World) → Type 0
  IsSome P none = ⊥
  IsSome P (some x) = P x

  acquired :
      (api : ApiServer) → api.locked ≡ false → try_acquire api ≡ some (record api { locked = true })
  unfolding try_acquire
  acquired api h = ground (arith, h)

  -- A handler that waits for the lock and has it.
  with_lock :
      (P : Exchange O.World → Type 0) (refused : Option (Exchange O.World))
      (f : ApiServer → Option (Exchange O.World)) (api : ApiServer)
      → api.locked ≡ false
      → IsSome P (f (record api { locked = true }))
      → IsSome P (elim (try_acquire api) [ none ↦ refused | some held ↦ f held ])
  with_lock P refused f api h t =
      subst (λ o. IsSome P (elim o [ none ↦ refused | some held ↦ f held ])) (sym (acquired api h))
        t

  -- What `httpRestoreHandler` and `httpDeleteHandler` run, by the request.
  abbrev pub restore_run : Request → ApiServer → O.World → O.World × Option Error
  restore_run r api world =
      O.restore api.config (text_or (lookup (codes "name") r.vars) [])
        (text_or (lookup (codes "table") r.query) []) (is_some (lookup (codes "schema") r.query))
        (is_some (lookup (codes "data") r.query))
        (is_some (lookup (codes "drop") r.query) || is_some (lookup (codes "rm") r.query)) world

  abbrev pub delete_run : Request → ApiServer → O.World → O.World × Option Error
  delete_run r api world =
      delete_from O (text_or (lookup (codes "where") r.vars) [])
        (text_or (lookup (codes "name") r.vars) []) api.config world

  -- What a deletion does, by the place that the request names.
  abbrev pub DeletesFrom : Text → Text → Config → O.World → O.World × Option Error → Type 0
  DeletesFrom place name config world run =
      ((place ≡ codes "local") × (run ≡ O.remove_backup_local config name world))
      ⊎ ((place ≡ codes "remote") × (run ≡ O.remove_backup_remote config name world))
      ⊎ ((place ≢ codes "local")
          × (place ≢ codes "remote")
          × (run ≡ (world, some (errorf (codes "Backup location must be 'local' or 'remote'")))))

  -- A freeze that has run and reported, with its command still in progress in the log.
  pub record IsLeftOpen (r : Request) (api : ApiServer) (x : Exchange O.World) : Type 0 where
    pub log : x.api.status ≡ api.status ++ (started (codes "freeze") (r.clock 0) ∷ [])
    pub unlocked : x.api.locked ≡ false
    pub no_job : x.job ≡ none

  -- With the lock free, the handler of `freeze` returns with the lock free and no goroutine, but
  -- the command that it added to the log is still in progress.
  pub http_freeze_handler-IsLeftOpen :
      (r : Request) (api : ApiServer) (world : O.World)
      → api.locked ≡ false
      → IsSome (IsLeftOpen r api) (http_freeze_handler O r api world)
  unfolding http_freeze_handler release start
  http_freeze_handler-IsLeftOpen r api world h =
      with_lock _ _ _ api h
        (concluded ((O.freeze api.config (text_or (lookup (codes "table") r.query) []) world).1))
    where
      concluded :
          (f : Option Error)
          → IsLeftOpen r api (
              conclude
                (codes "freeze")
                (outcome (codes "success") (codes "freeze"))
                (with_status
                  (record api { locked = true })
                  (start (codes "freeze") (r.clock 0) api.status))
                ((O.freeze api.config (text_or (lookup (codes "table") r.query) []) world).0)
                f)
      concluded none = record { log = refl; unlocked = refl; no_job = refl }
      concluded (some e) = record { log = refl; unlocked = refl; no_job = refl }
