-- ===== src/Examples/Requests.antt =====
-- Requests through the middleware.
use internal_transfers_syste.Base.{◌≡◌, refl, ◌⊎◌, false, none, some, List, [], ◌∷◌, ◌++◌}
use internal_transfers_syste.Base.Int.{pos}
use internal_transfers_syste.Models.{deadline_exceeded}
use internal_transfers_syste.Handler.Response.{failure, Writer, get_header, write_error}
use internal_transfers_syste.Server.Middleware.{
  logging_middleware, get_request_id, Request, HttpHandler, panicked, PanicEntry, Platform,
  request_id_header, generate_request_id, request_id_middleware, recovery_middleware,
}
use internal_transfers_syste.Server.Middleware.Ids.{
  Passed, request_id_middleware-Passed, write_error-id,
}
use internal_transfers_syste.Server.Application.{chain}
use internal_transfers_syste.Server.Application.Panic.{Unnamed, panic_without_id}
use internal_transfers_syste.Server.Health.{
  Probe, handle_ready, Available, Unavailable, handle_ready_lem,
}

-- No randomness to be had; the log is the world.
abbrev platform : Platform (List PanicEntry)
platform = record {
  random = λ w. (none, w);
  encode_to_string = λ b. "";
  http_error = λ text status out. record out { status = some status };
  log_panic = λ entry w. entry ∷ w;
  now = λ w. (pos 0, w);
  encoded_size = λ values. 0;
  log_request = λ entry w. w;
}

abbrev anonymous : Request (Unit {0})
anonymous = record {
  method = "GET";
  path = "/health";
  remote_addr = "10.0.0.1";
  headers = [];
  context_id = none;
  body = tt;
}

abbrev bare : Writer
bare = record { headers = []; status = none; body = []; status_code = 200; written = [] }

abbrev named : Writer
named = record {
  headers = (request_id_header, "req-fallback") ∷ [];
  status = none;
  body = [];
  status_code = 200;
  written = [];
}

abbrev breaks : HttpHandler (Unit {0}) (List PanicEntry)
breaks r out w = (panicked "nil pointer", out, w)

request_id_middleware-Passed_example :
    Passed platform anonymous bare [] breaks
      (request_id_middleware platform breaks anonymous bare [])
request_id_middleware-Passed_example =
    request_id_middleware-Passed platform anonymous bare [] breaks

named_header : get_header request_id_header named.headers ≡ "req-fallback"
unfolding get_header
named_header = refl

named_failure :
    ((write_error 404 "account_not_found" "account not found" named).status ≡ some 404)
    × ((write_error 404 "account_not_found" "account not found" named).body
        ≡ named.body
          ++ (failure (record {
            success = false;
            error = "account_not_found";
            message = "account not found";
            request_id = "req-fallback";
          })
              ∷ []))
    × (get_header request_id_header
          (write_error 404 "account_not_found" "account not found" named).headers
        ≡ "req-fallback")
named_failure =
    write_error-id named 404 "account_not_found" "account not found" "req-fallback" refl
      named_header

panic_without_id_example :
    Unnamed platform anonymous bare [] breaks "nil pointer"
      (chain platform breaks anonymous bare [])
panic_without_id_example =
    panic_without_id platform anonymous bare [] breaks "nil pointer" refl (λ q o v. refl)

-- The one entry of the log is that of the panic.
broken_log :
    (chain platform breaks anonymous bare []).2
    ≡ record { panic = "nil pointer"; path = "/health"; method = "GET"; request_id = "" } ∷ []
unfolding chain recovery_middleware request_id_middleware logging_middleware get_header
    generate_request_id get_request_id
broken_log = refl

-- A pool that does not answer.
abbrev probe : Probe (List PanicEntry)
probe = record { now = λ w. (pos 0, w); ping = some (λ w. (some deadline_exceeded, w)) }

handle_ready_lem_example :
    Available probe bare refl [] (handle_ready probe bare []).0
    ⊎ Unavailable probe bare refl [] (handle_ready probe bare []).0
handle_ready_lem_example = handle_ready_lem probe bare refl []
