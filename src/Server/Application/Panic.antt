-- ===== src/Server/Application/Panic.antt =====
-- What the recovery logs of a panic, given the order of the middleware in `New`.
use internal_transfers_syste.Base.{String, ◌≡◌, refl, sym, subst, none, some, []}
use internal_transfers_syste.Models.{Time}
use internal_transfers_syste.Handler.Response.{Writer, get_header}
use internal_transfers_syste.Server.Middleware.{
  Request, HttpHandler, Ending, finished, panicked, Platform, request_id_header, get_request_id,
  recovery_middleware, recovered, logging_middleware, logged,
}
use internal_transfers_syste.Server.Middleware.Ids.{Issued, request_id_middleware-Passed}
use internal_transfers_syste.Server.Application.{chain}

module _ {Body World : Type 0} (P : Platform World) (r : Request Body) (out : Writer)
    (w : World) where
  -- What the deferred function makes of a panic.
  abbrev pub LoggedWithout : String → Ending × Writer × World → Ending × Writer × World → Type 0
  LoggedWithout reason x y =
      (y.0 ≡ finished)
      × (y.1
          ≡ P.http_error
              "{\"success\":false,\"error\":\"internal_error\",\"message\":\"An unexpected error occurred\"}"
              500 x.1)
      × (y.2
          ≡ P.log_panic
              (record { panic = reason; path = r.path; method = r.method; request_id = "" }) x.2)

  recovered_without :
      (reason : String) (inner : Request Body) (start : Time) (x : Ending × Writer × World)
      → r.context_id ≡ none
      → x.0 ≡ panicked reason
      → LoggedWithout reason x (recovered P r (logged P inner start x))
  unfolding get_request_id
  recovered_without reason inner start (finished, sent, v) bare broke = cc
  recovered_without reason inner start (panicked p, sent, v) bare broke =
      let same : p ≡ reason = cc in rw (sym same, bare) (refl, refl, refl)

  -- The handler is called with an id, which the log's entry of its panic does not have.
  abbrev pub Unnamed : HttpHandler Body World → String → Ending × Writer × World → Type 0
  Unnamed next reason y =
      (id : String) × (named : Writer) × (v : World) × Issued P r out w id v
      × (get_header request_id_header named.headers ≡ id)
      × LoggedWithout reason
          (next (record r { context_id = some id })
            (record named { status_code = 200; written = [] }) (P.now v).1)
          y

  -- Whatever the middleware stands around, if it panics on every call and the request came with no id
  -- in its context: it is called with an id, the client's or a new one, in its context and in the
  -- response's header, its panic is recovered, `http.Error` writes 500, and the log's entry of the
  -- panic has the empty id.
  pub panic_without_id :
      (next : HttpHandler Body World) (reason : String)
      → r.context_id ≡ none
      → ((q : Request Body) (o : Writer) (v : World) → (next q o v).0 ≡ panicked reason)
      → Unnamed next reason (chain P next r out w)
  unfolding chain recovery_middleware logging_middleware
  panic_without_id next reason bare panics =
      let (id, v, named, issued, same, there, _, _, _) =
        request_id_middleware-Passed P r out w (logging_middleware P next) in
      let inner : Request Body = record r { context_id = some id } in
      let x : Ending × Writer × World =
        next inner (record named { status_code = 200; written = [] }) (P.now v).1 in
      let log : LoggedWithout reason x (recovered P r (logged P inner (P.now v).0 x)) =
        recovered_without reason inner (P.now v).0 x bare (panics _ _ _) in
      (
        id,
        named,
        v,
        issued,
        there,
        subst (λ y. LoggedWithout reason x (recovered P r y)) (sym same) log,
      )
