-- ===== src/Server/Application.antt =====
-- internal/server/server.go: `New` puts the repositories, the services, the handlers, the routes and
-- the middleware together. What it takes of the rest of the program's surroundings is `Platform`, the
-- pool's `Ping`, the JSON decoder and the router of net/http.
pub mod Writes
pub mod Effects
pub mod NotCreated
pub mod Program
pub mod History
pub mod Panic
use internal_transfers_syste.Base.{String, Option, none, some, List, [], ◌∷◌, map, if◌then◌else◌}
use text.Mathlib.Text.{◌==◌ as str_eq}
use internal_transfers_syste.Models.{Error, DecimalLib, Time}
use internal_transfers_syste.Interfaces.{Backend}
use internal_transfers_syste.Repository.{repositories}
use internal_transfers_syste.Repository.Driver.{Pgx}
use internal_transfers_syste.Handler.Response.{Writer}
use internal_transfers_syste.Handler.Request.{JsonLib}
use internal_transfers_syste.Handler.Account
use internal_transfers_syste.Handler.Transaction
use internal_transfers_syste.Server.Middleware.{
  Request, HttpHandler, Ending, finished, Platform, logging_middleware, request_id_middleware,
  recovery_middleware,
}
use internal_transfers_syste.Server.Wiring.{
  AccountHandler, TransactionHandler, new_account_handler, new_account_service,
  new_transaction_handler, new_transfer_service,
}
use internal_transfers_syste.Server.Health.{Probe, handle_health, handle_ready}

-- The handlers that are registered.
pub data Endpoint : Type 0 where
  health ready create_account get_account create_transaction : Endpoint

-- `registerRoutes`: the patterns with their handlers.
abbrev pub routes : List (String × Endpoint)
routes =
    ("GET /health", health)
    ∷ ("GET /ready", ready)
    ∷ ("POST /api/v1/accounts", create_account)
    ∷ ("GET /api/v1/accounts/{id}", get_account)
    ∷ ("POST /api/v1/transactions", create_transaction)
    ∷ []

-- The handler of a pattern.
unfoldable pub handler_of : String → List (String × Endpoint) → Option Endpoint
handler_of pattern [] = none
handler_of pattern ((p, e) ∷ rs) = if str_eq p pattern then some e else handler_of pattern rs

-- `http.ServeMux`: the pattern that fits a request, with what stands at `{id}`; and the answer to a
-- request that none fits.
pub record ServeMux (Body : Type 0) : Type 0 where
  pub select : List String → Request Body → Option (String × String)
  pub refuse : Request Body → Writer → Writer

-- The middleware around a handler: recovery, then the id, then the log.
unfoldable pub chain :
    {Body World : Type 0} → Platform World → HttpHandler Body World → HttpHandler Body World
chain P next = recovery_middleware P (request_id_middleware P (logging_middleware P next))

module _ {D : DecimalLib} (B : Backend D) (J : JsonLib) (P : Platform B.World)
    (ping : Option (B.World → Option Error × B.World)) (format_time : Time → String) where
  open B use {World}

  abbrev pub account_handler : AccountHandler D
  account_handler = new_account_handler (new_account_service B)

  abbrev pub transaction_handler : TransactionHandler D
  transaction_handler = new_transaction_handler (new_transfer_service B)

  abbrev pub probe : Probe World
  probe = record { now = P.now; ping = ping }

  -- A handler, at the path's id and the body.
  unfoldable pub serve : Endpoint → String → J.Body → Writer → World → Writer × World
  serve health id body out w = handle_health probe out w
  serve ready id body out w = handle_ready probe out w
  serve create_account id body out w =
      Account.create_account account_handler.account_service.backend J body out w
  serve get_account id body out w =
      Account.get_account account_handler.account_service.backend id out w
  serve create_transaction id body out w =
      Transaction.create_transaction transaction_handler.transfer_service.backend
        transaction_handler.transfer_service.config format_time J body out w

  abbrev pub finish : Writer × World → Ending × Writer × World
  finish (out, w) = (finished, out, w)

  module _ (mux : ServeMux J.Body) where
    -- What the router does with the pattern that was selected.
    abbrev pub dispatch :
        Request J.Body → Writer → World → Option (String × String) → Ending × Writer × World
    dispatch r out w none = (finished, mux.refuse r out, w)
    dispatch r out w (some (pattern, id)) = elim (handler_of pattern routes) [
      | none ↦ (finished, mux.refuse r out, w)
      | some e ↦ finish (serve e id r.body out w)
    ]

    unfoldable pub router : HttpHandler J.Body World
    router r out w = dispatch r out w (mux.select (map (λ (x : String × Endpoint). x.0) routes) r)

    -- The router inside the middleware.
    unfoldable pub application : HttpHandler J.Body World
    application = chain P router

-- `New`, over a pool.
unfoldable pub new :
    {D : DecimalLib} (P : Pgx D) (J : JsonLib)
    → Platform P.World
    → Option (P.World → Option Error × P.World)
    → (Time → String)
    → ServeMux J.Body
    → HttpHandler J.Body P.World
new P J platform ping format_time mux = application (repositories P) J platform ping format_time mux
