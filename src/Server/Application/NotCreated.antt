-- ===== src/Server/Application/NotCreated.antt =====
-- The responses that do not say that something was created.
use internal_transfers_syste.Base.{
  ℕ, ◌≡◌, refl, sym, ◌∙◌, ◌≢◌, ◌⊎◌, inl, inr, some, none, String, map, none, arith,
}
use mathlib.Core.Option.{some-injective}
use internal_transfers_syste.Handler.Response.{Writer}
use internal_transfers_syste.Handler.Failed.{Failed}
use internal_transfers_syste.Server.Middleware.{Request}
use internal_transfers_syste.Server.Health.{
  Probe, write_server_json, handle_health, handle_ready, handle_ready_lem,
}
use internal_transfers_syste.Server.Application.{ServeMux, Endpoint, routes, handler_of}

-- No pattern fits the request, or one that has no handler.
abbrev pub HasNoRoute : {Body : Type 0} → ServeMux Body → Request Body → Type 0
HasNoRoute mux r =
    (mux.select (map (λ (x : String × Endpoint). x.0) routes) r ≡ none)
    ⊎ ((pattern : String) × (id : String) × (mux.select
            (map (λ (x : String × Endpoint). x.0) routes) r
          ≡ some (pattern, id))
        × (handler_of pattern routes ≡ none))

-- The client was not told 201, unless by the router's own answer to a request that has no route.
abbrev pub NotCreated : {Body : Type 0} → ServeMux Body → Writer → Type 0
NotCreated {Body} mux sent =
    (sent.status ≢ some 201)
    ⊎ ((r : Request Body) × (out : Writer) × HasNoRoute mux r × (sent ≡ mux.refuse r out))

other_status : (sent : Writer) (n : ℕ) → n ≢ 201 → sent.status ≡ some n → sent.status ≢ some 201
other_status sent n ne told h = ne (some-injective _ _ (sym told ∙ h))

pub found-not_created : (sent : Writer) → sent.status ≡ some 200 → sent.status ≢ some 201
found-not_created sent = other_status sent 200 (omega arith)

pub Failed-not_created : (sent : Writer) → Failed sent → sent.status ≢ some 201
Failed-not_created sent (n, told, high) = other_status sent n (omega arith) told

module _ {World : Type 0} (P : Probe World) (out : Writer) (fresh : out.status ≡ none)
    (w : World) where
  pub health-not_created : (handle_health P out w).0.status ≢ some 201
  unfolding handle_health write_server_json
  health-not_created = other_status (handle_health P out w).0 200 (omega arith) (rw fresh refl)

  pub ready-not_created : (handle_ready P out w).0.status ≢ some 201
  ready-not_created = elim (handle_ready_lem P out fresh w) [
    | inl (_, _, _, (told, _)) ↦ other_status (handle_ready P out w).0 200 (omega arith) told
    | inr (inl (_, (told, _))) ↦ other_status (handle_ready P out w).0 503 (omega arith) told
    | inr (inr (_, _, _, _, (told, _))) ↦
        other_status (handle_ready P out w).0 503 (omega arith) told
  ]
