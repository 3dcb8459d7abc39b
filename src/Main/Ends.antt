-- ===== src/Main/Ends.antt =====
-- How the process ends, and what it has done by then.
use internal_transfers_syste.Base.{
  ◌≡◌, refl, ◌⊎◌, inl, inr, String, Option, none, some, List, [], ◌∷◌, ◌++◌, arith,
}
use internal_transfers_syste.Base.Int.{pos}
use internal_transfers_syste.Base.Action.{Result, ok, err}
use internal_transfers_syste.Models.{Error}
use internal_transfers_syste.Config.{Config, to_pgx_config, load}
use internal_transfers_syste.Server.Lifecycle.{http_server, graceful_shutdown}
use internal_transfers_syste.Main.{
  Wake, server_error, signal, Process, Event, connected, migrated, serving, shutting_down, closed,
  Ending, returned, exited, grace, emit, deferring_close, after_shutdown, woken, after_migrations,
  after_connection, after_load, main,
}

-- The whole life of the process: the pool is open before the migrations run, these before the server
-- takes requests, and the pool is closed after the server has stopped.
abbrev pub life : Config → List Event
life cfg =
    connected (to_pgx_config cfg.database)
    ∷ migrated cfg.database.migrations_path
    ∷ serving (http_server cfg.server)
    ∷ shutting_down (pos 30_000_000_000)
    ∷ closed
    ∷ []

abbrev pub Happens : Event → List Event → Type 0
Happens event [] = ⊥
Happens event (e ∷ trace) = (event ≡ e) ⊎ Happens event trace

module _ (P : Process) where
  -- It was all done; the opening, the migrations and the shutdown gave no error.
  abbrev pub Completed : Config → Ending → List Event → Type 0
  Completed cfg ending trace =
      (ending ≡ returned)
      × (trace ≡ life cfg)
      × (P.new_db (to_pgx_config cfg.database) ≡ none)
      × (P.run_migrations cfg.database.migrations_path ≡ none)
      × (P.wake ≡ signal)
      × (graceful_shutdown P.net (pos 30_000_000_000) ≡ none)

  -- The process exited with status 1 before the end of its life.
  abbrev pub CutOff : Config → Ending → List Event → Type 0
  CutOff cfg ending trace =
      (message : String) × (cause : Option Error) × (next : Event) × (rest : List Event) × (ending
        ≡ exited message cause)
      × (life cfg ≡ trace ++ (next ∷ rest))
      × ¬ (Happens closed trace)

  abbrev pub Ended : Ending × List Event → Type 0
  Ended (ending, trace) =
      ((e : Error) × (load P.env ≡ err e)
        × (trace ≡ [])
        × (ending ≡ exited "Failed to load configuration" (some e)))
      ⊎ ((cfg : Config) × (load P.env ≡ ok cfg)
          × (Completed cfg ending trace ⊎ CutOff cfg ending trace))

  abbrev pub InLife : Config → Ending × List Event → Type 0
  InLife cfg (ending, trace) = Completed cfg ending trace ⊎ CutOff cfg ending trace

  module _ (cfg : Config) (open_db : P.new_db (to_pgx_config cfg.database) ≡ none) where
    -- What the process does once the pool is open.
    abbrev connected_then : Ending × List Event → Ending × List Event
    connected_then rest = emit (connected (to_pgx_config cfg.database)) (deferring_close rest)

    shut_down :
        P.run_migrations cfg.database.migrations_path ≡ none
        → P.wake ≡ signal
        → (r : Option Error) → graceful_shutdown P.net grace ≡ r
        → InLife cfg (
            connected_then (
              emit (migrated cfg.database.migrations_path) (
                emit
                  (serving (http_server cfg.server))
                  (emit (shutting_down grace) (after_shutdown P r)))))
    shut_down fine told none stopped = inl (refl, refl, open_db, fine, told, stopped)
    shut_down fine told (some e) stopped = inr (_, _, closed, [], refl, refl, λ h. ground arith)

    awoken :
        P.run_migrations cfg.database.migrations_path ≡ none
        → (wake : Wake) → P.wake ≡ wake
        → InLife cfg (
            connected_then (
              emit
                (migrated cfg.database.migrations_path)
                (emit (serving (http_server cfg.server)) (woken P cfg wake))))
    awoken fine server_error told =
        inr (_, _, shutting_down grace, closed ∷ [], refl, refl, λ h. ground arith)
    awoken fine signal told = shut_down fine told (graceful_shutdown P.net grace) refl

    all_migrated :
        (r : Option Error)
        → P.run_migrations cfg.database.migrations_path ≡ r
        → InLife cfg (connected_then (after_migrations P cfg r))
    all_migrated none fine = awoken fine P.wake refl
    all_migrated (some e) failed =
        inr (_, _, migrated cfg.database.migrations_path, _, refl, refl, λ h. ground arith)

  opened :
      (cfg : Config) (r : Option Error)
      → P.new_db (to_pgx_config cfg.database) ≡ r
      → InLife cfg (after_connection P cfg r)
  opened cfg none fine = all_migrated cfg fine (P.run_migrations cfg.database.migrations_path) refl
  opened cfg (some e) failed =
      inr (_, _, connected (to_pgx_config cfg.database), _, refl, refl, λ h. ground arith)

  loaded : (r : Result Error Config) → load P.env ≡ r → Ended (after_load P r)
  loaded (ok cfg) done = inr (cfg, done, opened cfg (P.new_db (to_pgx_config cfg.database)) refl)
  loaded (err e) failed = inl (e, failed, refl, refl)

  -- The process ends in one of three ways. The configuration cannot be loaded, and it exits with nothing
  -- done. Or it returns, and has opened the pool, run the migrations, served until a signal, shut
  -- down with a deadline of 30 seconds and closed the pool, in this order, where the opening, the
  -- migrations and the shutdown were each without an error. Or it exits with
  -- status 1, and has done a part of this from the beginning, which is not all; the pool, if it was
  -- opened, is not closed then.
  pub main-Ended : Ended (main P)
  unfolding main
  main-Ended = loaded (load P.env) refl
