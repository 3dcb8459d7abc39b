-- ===== src/Server/Middleware.antt =====
-- internal/server/middleware.go: the request's id, the log of requests, and the recovery from panics.
-- What is beneath them is any handler.
pub mod Ids
use text.Mathlib.Text.{◌==◌ as str_eq}
use internal_transfers_syste.Base.{ℕ, String, Option, none, some, List, [], if◌then◌else◌}
use internal_transfers_syste.Base.Int.{ℤ, ◌-ℤ◌}
use internal_transfers_syste.Models.{Time}
use internal_transfers_syste.Handler.Response.{Payload, Writer, get_header, set_header}

abbrev pub request_id_header : String
request_id_header = "X-Request-ID"

-- `http.Request`: `context_id` is the context's value under `RequestIDKey`.
pub record Request (Body : Type 0) : Type 0 where
  pub method : String
  pub path : String
  pub remote_addr : String
  pub headers : List (String × String)
  pub context_id : Option String
  pub body : Body

-- How a handler ends.
pub data Ending : Type 0 where
  finished : Ending
  panicked : String → Ending

-- The log entry of a panic.
pub record PanicEntry : Type 0 where
  pub panic : String
  pub path : String
  pub method : String
  pub request_id : String

-- The log entry of a request. The size is that of the values that were written.
pub record RequestEntry : Type 0 where
  pub method : String
  pub path : String
  pub remote_addr : String
  pub status : ℕ
  pub size : ℕ
  pub duration : ℤ
  pub request_id : String

-- What the middleware takes of the standard library and the logger.
pub record Platform (World : Type 0) : Type 0 where
  -- `rand.Read` of eight bytes
  pub random : World → Option (List ℕ) × World
  pub encode_to_string : List ℕ → String
  -- `http.Error`
  pub http_error : String → ℕ → Writer → Writer
  pub log_panic : PanicEntry → World → World
  -- `time.Now`
  pub now : World → Time × World
  -- the number of bytes of the JSON texts of some values
  pub encoded_size : List Payload → ℕ
  pub log_request : RequestEntry → World → World

-- `GetRequestID`
unfoldable pub get_request_id : Option String → String
get_request_id none = ""
get_request_id (some id) = id

-- `http.Handler`
abbrev pub HttpHandler : Type 0 → Type 0 → Type 0
HttpHandler Body World = Request Body → Writer → World → Ending × Writer × World

module _ {World : Type 0} (P : Platform World) where
  -- What follows `rand.Read`.
  abbrev pub encoded_id : Option (List ℕ) × World → String × World
  encoded_id (none, w) = ("req-fallback", w)
  encoded_id (some b, w) = (P.encode_to_string b, w)

  unfoldable pub generate_request_id : World → String × World
  generate_request_id w = encoded_id (P.random w)

  module _ {Body : Type 0} where
    -- Behind the choice of the id: the response's header, the context, and the next handler.
    abbrev pub identified :
        HttpHandler Body World → Request Body → Writer → String × World → Ending × Writer × World
    identified next r out (id, w) =
        next (record r { context_id = some id })
          (record out { headers = set_header request_id_header id out.headers }) w

    unfoldable pub request_id_middleware : HttpHandler Body World → HttpHandler Body World
    request_id_middleware next r out w =
        let given = get_header request_id_header r.headers in
        identified next r out (if str_eq given "" then generate_request_id w else (given, w))

    -- What follows `next.ServeHTTP`; a panic leaves the function at once.
    abbrev pub logged : Request Body → Time → Ending × Writer × World → Ending × Writer × World
    logged r start (panicked p, out, w) = (panicked p, out, w)
    logged r start (finished, out, w) =
        let (end, w') = P.now w in
        (
          finished,
          out,
          P.log_request
              (record {
                method = r.method;
                path = r.path;
                remote_addr = r.remote_addr;
                status = out.status_code;
                size = P.encoded_size out.written;
                duration = end -ℤ start;
                request_id = get_request_id r.context_id;
              })
              w',
        )

    -- The fields of the new `responseWriter` start at 200 and at nothing.
    unfoldable pub logging_middleware : HttpHandler Body World → HttpHandler Body World
    logging_middleware next r out w =
        let (start, w') = P.now w in
        logged r start (next r (record out { status_code = 200; written = [] }) w')

    -- The deferred function, which reads the id from the request that this middleware was given.
    abbrev pub recovered : Request Body → Ending × Writer × World → Ending × Writer × World
    recovered r (finished, out, w) = (finished, out, w)
    recovered r (panicked p, out, w) = (
      finished,
      P.http_error
          "{\"success\":false,\"error\":\"internal_error\",\"message\":\"An unexpected error occurred\"}"
          500 out,
      P.log_panic
          (record {
            panic = p;
            path = r.path;
            method = r.method;
            request_id = get_request_id r.context_id;
          })
          w,
    )

    unfoldable pub recovery_middleware : HttpHandler Body World → HttpHandler Body World
    recovery_middleware next r out w = recovered r (next r out w)
