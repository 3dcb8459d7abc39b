-- ===== src/Handler/ServiceError.antt =====
-- `handleServiceError` and `mapDomainError` of internal/handler/account_handler.go.
pub mod Laws
use text.Mathlib.Text.{◌==◌ as str_eq}
use mathlib.Core.Bool.{◌||◌}
use internal_transfers_syste.Base.{ℕ, String, Bool, none, some, if◌then◌else◌}
use internal_transfers_syste.Models.{
  Error, canceled, deadline_exceeded, eof, errors_is, as_domain, DomainError, err_account_not_found,
  err_account_already_exists, err_insufficient_balance, err_invalid_amount, err_same_account,
  err_transfer_not_found, err_duplicate_transaction, code_account_not_found,
  code_account_already_exists, code_insufficient_balance, code_invalid_amount, code_same_account,
  code_transfer_not_found, code_duplicate_transaction, code_database_error, code_transaction_failed,
  code_internal_error,
}
use internal_transfers_syste.Handler.Response.{Writer, write_error}

-- The status, the error code and the message of a response.
abbrev pub Answer : Type 0
Answer = ℕ × String × String

abbrev pub unexpected : Answer
unexpected = (500, "internal_error", "An unexpected error occurred. Please try again later.")

unfoldable pub map_domain_error : DomainError → Answer
map_domain_error err =
    if str_eq err.code code_account_not_found
    then (404, err.code, err.message)
    else if str_eq err.code code_account_already_exists
    then (409, err.code, err.message)
    else if str_eq err.code code_insufficient_balance
    then (422, err.code, err.message)
    else if str_eq err.code code_invalid_amount
    then (400, err.code, err.message)
    else if str_eq err.code code_same_account
    then (400, err.code, err.message)
    else if str_eq err.code code_transfer_not_found
    then (404, err.code, err.message)
    else if str_eq err.code code_duplicate_transaction
    then (409, err.code, err.message)
    else if str_eq err.code code_database_error
        || str_eq err.code code_transaction_failed
        || str_eq err.code code_internal_error
    then unexpected
    else unexpected

-- The `switch` at the end, for an error with no domain error in its chain.
unfoldable pub plain_answer : Error → Answer
plain_answer err =
    if errors_is err err_account_not_found
    then (404, "account_not_found", "Account not found")
    else if errors_is err err_account_already_exists
    then (409, "account_exists", "Account already exists")
    else if errors_is err err_insufficient_balance
    then (422, "insufficient_balance", "Insufficient balance for this transaction")
    else if errors_is err err_invalid_amount
    then (400, "invalid_amount", "Amount must be a positive decimal value")
    else if errors_is err err_same_account
    then (400, "same_account", "Source and destination accounts cannot be the same")
    else if errors_is err err_transfer_not_found
    then (404, "transaction_not_found", "Transaction not found")
    else if errors_is err err_duplicate_transaction
    then (409, "duplicate_transaction", "Duplicate transaction detected")
    else if errors_is err eof
    then (400, "invalid_json", "Request body is empty")
    else unexpected

-- The answer that `handleServiceError` gives to an error.
unfoldable pub service_answer : Error → Answer
service_answer err =
    if errors_is err canceled
    then (400, "request_cancelled", "Request was cancelled")
    else if errors_is err deadline_exceeded
    then (504, "timeout", "Request timed out")
    else elim (as_domain err) [
      | some domain_err ↦ map_domain_error domain_err
      | none ↦ plain_answer err
    ]

unfoldable pub handle_service_error : Error → Writer → Writer
handle_service_error err w =
    let answer = service_answer err in write_error answer.0 answer.1 answer.2 w
