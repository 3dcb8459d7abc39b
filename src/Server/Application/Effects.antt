-- ===== src/Server/Application/Effects.antt =====
-- What a request may do to the ledger, from the outermost middleware to the commit.
pub mod Endpoints
use internal_transfers_syste.Base.{
  ℕ, ◌≡◌, refl, sym, ◌∙◌, subst, inl, inr, Bool-cases, Option, none, some, String, List, map,
}
use text.Mathlib.Text.{◌==◌ as str_eq}
use internal_transfers_syste.Models.{Error, DecimalLib, Exact, Time}
use internal_transfers_syste.Interfaces.{Backend}
use internal_transfers_syste.Interfaces.Ledger.{Ledger}
use internal_transfers_syste.Interfaces.Contract.{IsLawful}
use internal_transfers_syste.Service.Transfer.Spec.{IsSolvent}
use internal_transfers_syste.Handler.Response.{Writer, get_header}
use internal_transfers_syste.Handler.Request.{JsonLib}
use internal_transfers_syste.Server.Middleware.{
  Request, HttpHandler, Ending, finished, panicked, Platform, request_id_header,
  generate_request_id, encoded_id, identified, logged, recovered, logging_middleware,
  request_id_middleware, recovery_middleware,
}
use internal_transfers_syste.Server.Application.{
  chain, Endpoint, routes, handler_of, ServeMux, serve, finish, dispatch, router, application,
}
use internal_transfers_syste.Server.Application.Effects.Endpoints.{serve-Effect}
pub use internal_transfers_syste.Server.Application.Effects.Endpoints.{IsQuiet, Effect}

module _ {D : DecimalLib} (X : Exact D) {B : Backend D} (law : IsLawful X B) (L : Ledger X.Quantity)
    (answered : (e : Error) → ¬ (law.Lost e)) (solvent : IsSolvent X L) (J : JsonLib)
    (P : Platform B.World) (ping : Option (B.World → Option Error × B.World))
    (format_time : Time → String) where
  open law use {committed}

  module _ (quiet : IsQuiet X law L answered solvent J P ping format_time)
      (mux : ServeMux J.Body) where
    -- What a request with this body may do, by the response and the ledger.
    abbrev At : J.Body → Writer → Ledger X.Quantity → Type 0
    At body sent M = Effect X law L answered solvent J P ping format_time mux body sent M

    -- The handler returns, with no other effect.
    abbrev Safe : HttpHandler J.Body B.World → Type 0
    Safe next =
        (r : Request J.Body) (out : Writer) (w : B.World)
        → out.status ≡ none
        → committed w ≡ L
        → ((next r out w).0 ≡ finished) × At r.body (next r out w).1 (committed (next r out w).2)

    router-Safe : Safe (router B J P ping format_time mux)
    unfolding router
    router-Safe r out w fresh h = go (mux.select _ r) refl
      where
        by_handler :
            (pattern id : String)
            → mux.select (map (λ (x : String × Endpoint). x.0) routes) r ≡ some (pattern, id)
            → (o : Option Endpoint) → handler_of pattern routes ≡ o
            → let x : Ending × Writer × B.World = elim o [
              | none ↦ (finished, mux.refuse r out, w)
              | some e ↦
                  finish B J P ping format_time (serve B J P ping format_time e id r.body out w)
            ] in
              (x.0 ≡ finished) × At r.body x.1 (committed x.2)
        by_handler pattern id fits none missing =
            (refl, inl (h, inr (r, out, inr (pattern, id, fits, missing), refl)))
        by_handler pattern id fits (some e) there = (
          refl,
          serve-Effect X law L answered solvent J P ping format_time quiet mux e id r.body out w
              fresh h,
        )

        go :
            (o : Option (String × String))
            → mux.select (map (λ (x : String × Endpoint). x.0) routes) r ≡ o
            → ((dispatch B J P ping format_time mux r out w o).0 ≡ finished)
              × At r.body
                  (dispatch B J P ping format_time mux r out w o).1
                  (committed (dispatch B J P ping format_time mux r out w o).2)
        go none unfit = (refl, inl (h, inr (r, out, inl unfit, refl)))
        go (some (pattern, id)) fits = by_handler pattern id fits (handler_of pattern routes) refl

    subst-At :
        (body : J.Body) (sent : Writer) {M N : Ledger X.Quantity}
        → N ≡ M
        → At body sent M
        → At body sent N
    subst-At body sent same h = subst (At body sent) (sym same) h

    logging-Safe :
        (next : HttpHandler J.Body B.World) → Safe next → Safe (logging_middleware P next)
    unfolding logging_middleware
    logging-Safe next safe r out w fresh h =
        go (next r _ (P.now w).1) (safe r _ (P.now w).1 fresh (quiet.now_keeps w ∙ h))
      where
        go :
            (x : Ending × Writer × B.World)
            → (x.0 ≡ finished) × At r.body x.1 (committed x.2)
            → ((logged P r (P.now w).0 x).0 ≡ finished)
              × At r.body (logged P r (P.now w).0 x).1 (committed (logged P r (P.now w).0 x).2)
        go (finished, sent, v) (_, effect) =
            (refl, subst-At r.body sent (quiet.log_request_keeps _ _ ∙ quiet.now_keeps v) effect)
        go (panicked p, sent, v) (ended, _) = cc

    request_id-Safe :
        (next : HttpHandler J.Body B.World) → Safe next → Safe (request_id_middleware P next)
    unfolding request_id_middleware generate_request_id
    request_id-Safe next safe r out w fresh h =
        elim (Bool-cases (str_eq (get_header request_id_header r.headers) "")) [
          | inl missing ↦ rw missing (drawn (P.random w) (quiet.random_keeps w))
          | inr sent ↦ rw sent (safe _ _ w fresh h)
        ]
      where
        drawn :
            (x : Option (List ℕ) × B.World)
            → committed x.1 ≡ committed w
            → let y = identified P next r out (encoded_id P x) in
              (y.0 ≡ finished) × At r.body y.1 (committed y.2)
        drawn (none, v) k = safe _ _ v fresh (k ∙ h)
        drawn (some b, v) k = safe _ _ v fresh (k ∙ h)

    recovery-Safe :
        (next : HttpHandler J.Body B.World) → Safe next → Safe (recovery_middleware P next)
    unfolding recovery_middleware
    recovery-Safe next safe r out w fresh h = go (next r out w) (safe r out w fresh h)
      where
        go :
            (x : Ending × Writer × B.World)
            → (x.0 ≡ finished) × At r.body x.1 (committed x.2)
            → ((recovered P r x).0 ≡ finished)
              × At r.body (recovered P r x).1 (committed (recovered P r x).2)
        go (finished, sent, v) k = k
        go (panicked p, sent, v) (ended, _) = cc

    -- Over a lawful backend that loses no answer, on a solvent ledger, with surroundings that leave the
    -- ledger alone and a response not yet begun, whatever the router selects, after a request to the
    -- application either the ledger is as it was and the client was not told 201, unless by the
    -- router's own answer to a request that has no route, or the client was told 201 and the ledger
    -- has the account that the request's body asks for, with the balance that the body's text stands
    -- for, which is not below zero, or the client was told 201 and the ledger has the transfer that the
    -- body asks for, of an amount above zero between two different accounts.
    pub application-Effect :
        (r : Request J.Body) (out : Writer) (w : B.World)
        → out.status ≡ none
        → committed w ≡ L
        → Effect X law L answered solvent J P ping format_time mux r.body
            (application B J P ping format_time mux r out w).1
            (committed (application B J P ping format_time mux r out w).2)
    unfolding application chain
    application-Effect r out w fresh h =
        (recovery-Safe _ (request_id-Safe _ (logging-Safe _ router-Safe)) r out w fresh h).1
