-- ===== src/Server/Application/History.antt =====
-- The program over its life: requests handled one after the other.
use internal_transfers_syste.Base.{Option, String, List, [], ◌∷◌}
use internal_transfers_syste.Models.{Error, DecimalLib, Exact, Time}
use internal_transfers_syste.Interfaces.Ledger.{Entry, Ledger}
use internal_transfers_syste.Interfaces.Ledger.Audit.{Audited}
use internal_transfers_syste.Schema.{Satisfies, migrations}
use internal_transfers_syste.Repository.Driver.{Pgx}
use internal_transfers_syste.Handler.Response.{Writer}
use internal_transfers_syste.Handler.Request.{JsonLib}
use internal_transfers_syste.Server.Middleware.{Request, Platform}
use internal_transfers_syste.Server.Application.{ServeMux, new}

module _ {D : DecimalLib} (P : Pgx D) (J : JsonLib) (platform : Platform P.World)
    (ping : Option (P.World → Option Error × P.World)) (format_time : Time → String)
    (mux : ServeMux J.Body) (blank : Writer) where
  -- What the requests lead to, each with a response not yet begun.
  unfoldable pub handle_all : List (Request J.Body) → P.World → P.World
  handle_all [] w = w
  handle_all (r ∷ requests) w =
      handle_all requests (new P J platform ping format_time mux r blank w).2

module _ {D : DecimalLib} (X : Exact D) where
  open X use {Quantity}

  -- The ledger meets the schema, and its balances are those of `L` with what the new records say.
  abbrev pub InOrder : Ledger Quantity → Ledger Quantity → Type 0
  InOrder L M = Satisfies X M migrations × (es : List (Entry Quantity)) × Audited X L es M
