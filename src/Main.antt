-- ===== src/Main.antt =====
-- cmd/api/main.go. What the database and the operating system answer is a parameter; each call is made
-- at most once, so its answer is a value. Log calls are left out, but for the ends that `log.Fatal`
-- makes: it exits at once, and no deferred call runs.
pub mod Ends
use internal_transfers_syste.Base.{String, Option, none, some, List, [], ◌∷◌, ◌++◌}
use internal_transfers_syste.Base.Int.{ℤ, pos}
use internal_transfers_syste.Base.Action.{Result, ok, err}
use internal_transfers_syste.Models.{Error}
use internal_transfers_syste.Config.{Config, PgxConfig, to_pgx_config, Envconfig, load}
use internal_transfers_syste.Server.Lifecycle.{
  HttpServer, http_server, NetHttp, start, graceful_shutdown,
}

-- Which channel the `select` reads.
pub data Wake : Type 0 where
  server_error signal : Wake

pub record Process : Type 0 where
  pub env : Envconfig
  pub net : NetHttp
  -- `pgx.NewDB`, `RunMigrationsFromDir` and the channels
  pub new_db : PgxConfig → Option Error
  pub run_migrations : String → Option Error
  pub wake : Wake

-- What the process has done to its surroundings.
pub data Event : Type 0 where
  connected : PgxConfig → Event
  migrated : String → Event
  serving : HttpServer → Event
  shutting_down : ℤ → Event
  closed : Event

-- `main` returns, or the process exits with status 1, with what it logs last.
pub data Ending : Type 0 where
  returned : Ending
  exited : String → Option Error → Ending

abbrev pub emit : Event → Ending × List Event → Ending × List Event
emit event (ending, trace) = (ending, event ∷ trace)

-- `defer db.Close()`
abbrev pub deferring_close : Ending × List Event → Ending × List Event
deferring_close (returned, trace) = (returned, trace ++ (closed ∷ []))
deferring_close (exited message e, trace) = (exited message e, trace)

-- 30 seconds
abbrev pub grace : ℤ
grace = pos 30_000_000_000

module _ (P : Process) where
  abbrev pub after_shutdown : Option Error → Ending × List Event
  after_shutdown none = (returned, [])
  after_shutdown (some e) = (exited "Graceful shutdown failed" (some e), [])

  abbrev pub woken : Config → Wake → Ending × List Event
  woken cfg server_error = (exited "Server error" (start P.net (http_server cfg.server)), [])
  woken cfg signal = emit (shutting_down grace) (after_shutdown (graceful_shutdown P.net grace))

  abbrev pub after_migrations : Config → Option Error → Ending × List Event
  after_migrations cfg (some e) = (exited "Failed to run migrations" (some e), [])
  after_migrations cfg none =
      emit (migrated cfg.database.migrations_path)
        (emit (serving (http_server cfg.server)) (woken cfg P.wake))

  abbrev pub after_connection : Config → Option Error → Ending × List Event
  after_connection cfg (some e) = (exited "Failed to connect to database" (some e), [])
  after_connection cfg none =
      emit (connected (to_pgx_config cfg.database))
        (deferring_close (after_migrations cfg (P.run_migrations cfg.database.migrations_path)))

  abbrev pub after_load : Result Error Config → Ending × List Event
  after_load (err e) = (exited "Failed to load configuration" (some e), [])
  after_load (ok cfg) = after_connection cfg (P.new_db (to_pgx_config cfg.database))

  unfoldable pub main : Ending × List Event
  main = after_load (load P.env)
