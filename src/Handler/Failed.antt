-- ===== src/Handler/Failed.antt =====
-- Responses that report a failure, and what the writers of internal/handler/response.go leave.
use internal_transfers_syste.Base.{ℕ, ◌≤◌, ◌≡◌, refl, none, some, String, [], ◌∷◌, ◌++◌, arith}
use internal_transfers_syste.Models.{Error}
use internal_transfers_syste.Validator.{ValidationErrors}
use internal_transfers_syste.Handler.Response.{
  Payload, Writer, write_json, write_error, write_validation_error,
}
use internal_transfers_syste.Handler.ServiceError.{service_answer, handle_service_error}
use internal_transfers_syste.Handler.ServiceError.Laws.{service_answer_status}

-- The first status that is written stays.
pub write_json-status :
    (status : ℕ) (p : Payload) (out : Writer)
    → out.status ≡ none
    → (write_json status p out).status ≡ some status
unfolding write_json
write_json-status status p out h = rw h refl

pub write_json-body :
    (status : ℕ) (p : Payload) (out : Writer)
    → out.status ≡ none
    → (write_json status p out).body ≡ out.body ++ (p ∷ [])
unfolding write_json
write_json-body status p out h = rw h refl

-- A response of a failure: a status of 400 or above, written first.
abbrev pub Failed : Writer → Type 0
Failed out = (status : ℕ) × (out.status ≡ some status) × (400 ≤ status)

pub handle_service_error-Failed :
    (e : Error) (out : Writer) → out.status ≡ none → Failed (handle_service_error e out)
unfolding handle_service_error write_error
handle_service_error-Failed e out h =
    ((service_answer e).0, write_json-status _ _ out h, service_answer_status e)

pub validation-Failed :
    (errs : ValidationErrors) (out : Writer)
    → out.status ≡ none
    → Failed (write_validation_error errs out)
unfolding write_validation_error
validation-Failed errs out h = (400, write_json-status _ _ out h, omega arith)

pub invalid_json-Failed :
    (out : Writer)
    → out.status ≡ none
    → Failed (write_error 400 "invalid_json" "Invalid JSON body" out)
unfolding write_error
invalid_json-Failed out h = (400, write_json-status _ _ out h, omega arith)

pub write_error-Failed :
    (status : ℕ) (code message : String) (out : Writer)
    → 400 ≤ status
    → out.status ≡ none
    → Failed (write_error status code message out)
unfolding write_error
write_error-Failed status code message out low h = (status, write_json-status _ _ out h, low)
