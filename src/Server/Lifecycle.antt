-- ===== src/Server/Lifecycle.antt =====
-- internal/server/server.go: the settings of the HTTP server that `New` makes, `Start`, `Shutdown` and
-- `GracefulShutdown`. What net/http answers is a parameter.
use internal_transfers_syste.Base.{String, Bool, Option, none, some, if◌then◌else◌}
use internal_transfers_syste.Base.Int.{ℤ}
use internal_transfers_syste.Models.{Error, errorf}
use internal_transfers_syste.Config.{ServerConfig, address}

-- The fields of `http.Server` that `New` sets; the handler is `application` of Server.Application.
pub record HttpServer : Type 0 where
  pub addr : String
  pub read_timeout : ℤ
  pub write_timeout : ℤ
  pub idle_timeout : ℤ

unfoldable pub http_server : ServerConfig → HttpServer
http_server cfg = record {
  addr = address cfg;
  read_timeout = cfg.read_timeout;
  write_timeout = cfg.write_timeout;
  idle_timeout = cfg.idle_timeout;
}

-- What net/http answers: how `ListenAndServe` ends, the comparison with `http.ErrServerClosed`, and
-- how `Shutdown` ends under a context with a time limit.
pub record NetHttp : Type 0 where
  pub listen_and_serve : HttpServer → Option Error
  pub is_server_closed : Error → Bool
  pub shutdown : ℤ → Option Error

module _ (N : NetHttp) where
  abbrev pub served : Option Error → Option Error
  served none = none
  served (some e) = if N.is_server_closed e then none else some (errorf "HTTP server error: " e)

  -- `Start`
  unfoldable pub start : HttpServer → Option Error
  start srv = served (N.listen_and_serve srv)

  abbrev pub stopped : Option Error → Option Error
  stopped none = none
  stopped (some e) = some (errorf "server shutdown error: " e)

  -- `Shutdown`, under a context that ends after `timeout`
  unfoldable pub shutdown : ℤ → Option Error
  shutdown timeout = stopped (N.shutdown timeout)

  -- `GracefulShutdown`
  unfoldable pub graceful_shutdown : ℤ → Option Error
  unfolding shutdown
  graceful_shutdown timeout = shutdown timeout
