-- ===== src/Models/Errors.antt =====
-- internal/models/errors.go, over the error values that the program handles. An error is a chain:
-- a `*DomainError` with or without a cause, a `fmt.Errorf` with `%w`, or a leaf.
pub mod Laws
use mathlib.Core.Bool.{◌||◌}
use text.Mathlib.Text.{◌==◌ as str_eq}
use internal_transfers_syste.Base.{
  ℕ, String, ◌<>◌, Bool, true, false, Option, none, some, List, [], ◌∷◌, if◌then◌else◌,
}
use internal_transfers_syste.Base.Text.{codes, contains, to_lower}

-- `type ErrorCode string`
abbrev pub ErrorCode : Type 0
ErrorCode = String

abbrev pub code_account_not_found : ErrorCode
code_account_not_found = "account_not_found"

abbrev pub code_insufficient_balance : ErrorCode
code_insufficient_balance = "insufficient_balance"

abbrev pub code_invalid_amount : ErrorCode
code_invalid_amount = "invalid_amount"

abbrev pub code_currency_mismatch : ErrorCode
code_currency_mismatch = "currency_mismatch"

abbrev pub code_same_account : ErrorCode
code_same_account = "same_account"

abbrev pub code_transfer_not_found : ErrorCode
code_transfer_not_found = "transaction_not_found"

abbrev pub code_account_already_exists : ErrorCode
code_account_already_exists = "account_exists"

abbrev pub code_duplicate_transaction : ErrorCode
code_duplicate_transaction = "duplicate_transaction"

abbrev pub code_database_error : ErrorCode
code_database_error = "database_error"

abbrev pub code_transaction_failed : ErrorCode
code_transaction_failed = "transaction_failed"

abbrev pub code_internal_error : ErrorCode
code_internal_error = "internal_error"

-- An `error` that is not nil. `errorf p e` is `fmt.Errorf(p + "%w", e)`; the last four are the
-- values that the program compares with: `context.Canceled`, `context.DeadlineExceeded`, `io.EOF`
-- and `pgx.ErrNoRows`. Any other leaf is `plain`, with its text.
pub data Error : Type 0 where
  domain : ErrorCode → String → Error
  domain_cause : ErrorCode → String → Error → Error
  errorf : String → Error → Error
  plain : String → Error
  canceled deadline_exceeded eof no_rows : Error

-- `struct DomainError`
pub record DomainError : Type 0 where
  pub code : ErrorCode
  pub message : String
  pub cause : Option Error

-- The method `Error()` of each kind of error.
unfoldable pub error_text : Error → String
error_text (domain code message) = code <> (": " <> message)
error_text (domain_cause code message cause) =
    code <> (": " <> (message <> (": " <> error_text cause)))
error_text (errorf prefix cause) = prefix <> error_text cause
error_text (plain text) = text
error_text canceled = "context canceled"
error_text deadline_exceeded = "context deadline exceeded"
error_text eof = "EOF"
error_text no_rows = "no rows in result set"

-- `errors.Unwrap`
unfoldable pub unwrap : Error → Option Error
unwrap (domain_cause _ _ cause) = some cause
unwrap (errorf _ cause) = some cause
unwrap _ = none

-- `(*DomainError).Is`, for a receiver with this code.
unfoldable pub domain_is : ErrorCode → Error → Bool
domain_is code (domain c _) = str_eq code c
domain_is code (domain_cause c _ _) = str_eq code c
domain_is code _ = false

-- One round of `errors.Is`: `err == target`, or the method `Is` of `err` says so. The targets of
-- the program are domain errors, whose identity their `Is` covers, and the four named values. Any
-- other target is compared by its identity, which a text does not show, and is not considered.
unfoldable pub matches : Error → Error → Bool
unfolding domain_is
matches (domain code _) target = domain_is code target
matches (domain_cause code _ _) target = domain_is code target
matches canceled canceled = true
matches deadline_exceeded deadline_exceeded = true
matches eof eof = true
matches no_rows no_rows = true
matches _ _ = false

-- `errors.Is(err, target)`: along the chain.
unfoldable pub errors_is : Error → Error → Bool
unfolding matches
errors_is (domain_cause code message cause) target =
    matches (domain_cause code message cause) target || errors_is cause target
errors_is (errorf prefix cause) target =
    matches (errorf prefix cause) target || errors_is cause target
errors_is err target = matches err target

-- `errors.As(err, &domainErr)` with `domainErr` a `*DomainError`: the first of the chain.
unfoldable pub as_domain : Error → Option DomainError
as_domain (domain code message) = some (record { code = code; message = message; cause = none })
as_domain (domain_cause code message cause) =
    some (record { code = code; message = message; cause = some cause })
as_domain (errorf _ cause) = as_domain cause
as_domain _ = none

unfoldable pub new_domain_error : ErrorCode → String → Error
new_domain_error code message = domain code message

-- `WrapError`; a nil cause is `none`.
unfoldable pub wrap_error : ErrorCode → String → Option Error → Error
wrap_error code message none = domain code message
wrap_error code message (some cause) = domain_cause code message cause

abbrev pub err_account_not_found : Error
err_account_not_found = domain code_account_not_found "account not found"

abbrev pub err_insufficient_balance : Error
err_insufficient_balance =
    domain code_insufficient_balance "insufficient balance for this transaction"

abbrev pub err_invalid_amount : Error
err_invalid_amount = domain code_invalid_amount "amount must be a positive decimal value"

abbrev pub err_currency_mismatch : Error
err_currency_mismatch = domain code_currency_mismatch "currency mismatch between accounts"

abbrev pub err_same_account : Error
err_same_account = domain code_same_account "source and destination accounts cannot be the same"

abbrev pub err_transfer_not_found : Error
err_transfer_not_found = domain code_transfer_not_found "transaction not found"

abbrev pub err_account_already_exists : Error
err_account_already_exists =
    domain code_account_already_exists "account with this ID already exists"

abbrev pub err_duplicate_transaction : Error
err_duplicate_transaction = domain code_duplicate_transaction "duplicate transaction detected"

-- `IsDomainError`: the code and whether there is one.
unfoldable pub is_domain_error : Error → ErrorCode × Bool
unfolding as_domain
is_domain_error err = elim (as_domain err) [ none ↦ ("", false) | some d ↦ (d.code, true) ]

abbrev pub retry_patterns : List String
retry_patterns = "deadlock" ∷ "serialize" ∷ "connection" ∷ "timeout" ∷ []

-- The loop of `IsRetryable` over its patterns.
unfoldable pub any_pattern : List ℕ → List String → Bool
any_pattern text [] = false
any_pattern text (p ∷ patterns) = contains text (codes p) || any_pattern text patterns

-- `IsRetryable`, of nil too.
unfoldable pub is_retryable : Option Error → Bool
is_retryable none = false
is_retryable (some err) = any_pattern (to_lower (error_text err)) retry_patterns
