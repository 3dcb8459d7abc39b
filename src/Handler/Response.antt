-- ===== src/Handler/Response.antt =====
-- internal/handler/response.go, over the `http.ResponseWriter` that the handlers write to.
use text.Mathlib.Text.{◌==◌ as str_eq}
use internal_transfers_syste.Base.{
  ℕ, String, Bool, false, Option, none, some, List, [], ◌∷◌, ◌++◌, if◌then◌else◌,
}
use internal_transfers_syste.Base.Int.{ℤ}
use internal_transfers_syste.Models.{GetAccountResponse, Time}
use internal_transfers_syste.Validator.{ValidationError, ValidationErrors}

-- `struct TransactionResponse` of transaction_handler.go
pub record TransactionResponse : Type 0 where
  pub transaction_id : ℤ
  pub source_account_id : ℤ
  pub destination_account_id : ℤ
  pub amount : String
  pub created_at : String

-- `struct ErrorResponse`
pub record ErrorResponse : Type 0 where
  pub success : Bool
  pub error : String
  pub message : String
  pub request_id : String

-- `struct ValidationErrorResponse`
pub record ValidationErrorResponse : Type 0 where
  pub success : Bool
  pub error : String
  pub errors : List ValidationError

-- `struct HealthResponse` of internal/server/handlers.go
pub record HealthResponse : Type 0 where
  pub status : String
  pub timestamp : Time
  pub service : String
  pub version : String

-- `struct ReadyResponse` of internal/server/handlers.go; the checks with their results.
pub record ReadyResponse : Type 0 where
  pub status : String
  pub timestamp : Time
  pub checks : List (String × String)

-- The values that the handlers encode as JSON.
pub data Payload : Type 0 where
  account : GetAccountResponse → Payload
  transaction : TransactionResponse → Payload
  failure : ErrorResponse → Payload
  invalid : ValidationErrorResponse → Payload
  health : HealthResponse → Payload
  readiness : ReadyResponse → Payload

-- What the handlers write to. The first fields are the response: the headers, the status once it is
-- written, and what was encoded. The others are those of the `responseWriter` that
-- `LoggingMiddleware` of internal/server/middleware.go wraps around it: the status that it saw, and
-- the values whose bytes it counted.
pub record Writer : Type 0 where
  pub headers : List (String × String)
  pub status : Option ℕ
  pub body : List Payload
  pub status_code : ℕ
  pub written : List Payload

-- `Header().Get(key)`: empty where the key is not set.
unfoldable pub get_header : String → List (String × String) → String
get_header key [] = ""
get_header key ((k, v) ∷ headers) = if str_eq k key then v else get_header key headers

-- `Header().Set(key, value)`
unfoldable pub set_header : String → String → List (String × String) → List (String × String)
set_header key value [] = (key, value) ∷ []
set_header key value ((k, v) ∷ headers) =
    if str_eq k key then (key, value) ∷ headers else (k, v) ∷ set_header key value headers

-- `WriteHeader`: the response ignores a second call, the wrapper does not.
abbrev pub write_header : ℕ → Writer → Writer
write_header code w = elim w.status [
  | none ↦ record w { status = some code; status_code = code }
  | some _ ↦ record w { status_code = code }
]

-- A write of the body before any `WriteHeader` writes the status 200 to the response. The value is
-- counted as a whole: a connection that breaks before all of its bytes are written is not modelled.
abbrev pub encode : Payload → Writer → Writer
encode data_value w = elim w.status [
  | none ↦ record w {
    status = some 200;
    body = w.body ++ (data_value ∷ []);
    written = w.written ++ (data_value ∷ []);
  }
  | some _ ↦ record w {
    body = w.body ++ (data_value ∷ []);
    written = w.written ++ (data_value ∷ []);
  }
]

unfoldable pub write_json : ℕ → Payload → Writer → Writer
write_json status data_value w = encode data_value (
    write_header status (record w {
      headers =
          set_header "X-Content-Type-Options" "nosniff"
            (set_header "Content-Type" "application/json; charset=utf-8" w.headers);
    }))

unfoldable pub write_success : ℕ → Payload → Writer → Writer
write_success status data_value w = write_json status data_value w

unfoldable pub write_error : ℕ → String → String → Writer → Writer
write_error status error_code message w =
    write_json status
      (failure (record {
        success = false;
        error = error_code;
        message = message;
        request_id = get_header "X-Request-ID" w.headers;
      }))
      w

unfoldable pub write_validation_error : ValidationErrors → Writer → Writer
write_validation_error errs w =
    write_json 400
      (invalid (record { success = false; error = "validation_failed"; errors = errs })) w

-- `writeInternalError`; the error goes to the log only.
unfoldable pub write_internal_error : Writer → Writer
write_internal_error w =
    write_error 500 "internal_error" "An unexpected error occurred. Please try again later." w
