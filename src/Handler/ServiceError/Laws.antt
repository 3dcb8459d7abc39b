-- ===== src/Handler/ServiceError/Laws.antt =====
-- What the answers to errors may be: an internal failure is never told to the client, and every
-- answer is that of a failure.
use mathlib.Core.Bool.{◌||◌}
use text.Mathlib.Text.{◌==◌ as str_eq}
use internal_transfers_syste.Base.{
  ℕ, ◌≤◌, String, ◌≡◌, refl, ◌⊎◌, inl, inr, Bool, true, false, Option, none, some, arith,
  Bool-cases, if◌then◌else◌,
}
use internal_transfers_syste.Models
use internal_transfers_syste.Models.{
  Error, canceled, deadline_exceeded, eof, errors_is, as_domain, DomainError, wrap_error, ErrorCode,
  code_database_error, code_transaction_failed, code_internal_error, err_account_not_found,
  err_account_already_exists, err_insufficient_balance, err_invalid_amount, err_same_account,
  err_transfer_not_found, err_duplicate_transaction, code_account_not_found,
  code_account_already_exists, code_insufficient_balance, code_invalid_amount, code_same_account,
  code_transfer_not_found, code_duplicate_transaction,
}
use internal_transfers_syste.Models.Errors.Laws.{errors_is-as_domain}
use internal_transfers_syste.Handler.ServiceError.{
  Answer, unexpected, map_domain_error, plain_answer, service_answer,
}

-- An answer that tells the client what is wrong, or the one for everything else.
abbrev pub IsFailure : Answer → Type 0
IsFailure a =
    (a ≡ unexpected) ⊎ ((a.0 ≡ 400) ⊎ (a.0 ≡ 404) ⊎ (a.0 ≡ 409) ⊎ (a.0 ≡ 422) ⊎ (a.0 ≡ 504))

IsFailure-if :
    (b : Bool) (x y : Answer) → IsFailure x → IsFailure y → IsFailure (if b then x else y)
IsFailure-if true x y hx hy = hx
IsFailure-if false x y hx hy = hy

map_domain_error-IsFailure : (d : DomainError) → IsFailure (map_domain_error d)
unfolding map_domain_error
map_domain_error-IsFailure d =
    IsFailure-if (is code_account_not_found) (told 404) _ (inr (inr (inl refl))) (
      IsFailure-if (is code_account_already_exists) (told 409) _ (inr (inr (inr (inl refl)))) (
        IsFailure-if (is code_insufficient_balance) (told 422) _ (inr (inr (inr (inr (inl refl)))))
          (IsFailure-if (is code_invalid_amount) (told 400) _ (inr (inl refl)) (
            IsFailure-if (is code_same_account) (told 400) _ (inr (inl refl)) (
              IsFailure-if (is code_transfer_not_found) (told 404) _ (inr (inr (inl refl))) (
                IsFailure-if (is code_duplicate_transaction) (told 409) _
                  (inr (inr (inr (inl refl))))
                  (IsFailure-if
                    (is code_database_error || is code_transaction_failed || is code_internal_error)
                    unexpected _ (inl refl) (inl refl))))))))
  where
    is : ErrorCode → Bool
    is code = str_eq d.code code

    told : ℕ → Answer
    told status = (status, d.code, d.message)

-- For an error without a domain error in its chain, seven of the eight cases are dead.
pub plain_answer_dead :
    (e : Error)
    → as_domain e ≡ none
    → plain_answer e
      ≡ (if errors_is e eof then (400, "invalid_json", "Request body is empty") else unexpected)
unfolding plain_answer
plain_answer_dead e h =
    rw
      (
        never code_account_not_found _,
        never code_account_already_exists _,
        never code_insufficient_balance _,
        never code_invalid_amount _,
        never code_same_account _,
        never code_transfer_not_found _,
        never code_duplicate_transaction _,
      )
      refl
  where
    never : (code : ErrorCode) (message : String) → errors_is e (Models.domain code message) ≡ false
    never code message = elim (Bool-cases (errors_is e (Models.domain code message))) [
      | inl is_it ↦ absurd (errors_is-as_domain e code message is_it h)
      | inr is_not ↦ is_not
    ]

by_domain-IsFailure :
    (e : Error) (o : Option DomainError)
    → as_domain e ≡ o
    → IsFailure (elim o [ some d ↦ map_domain_error d | none ↦ plain_answer e ])
by_domain-IsFailure e none h =
    rw (plain_answer_dead e h) (IsFailure-if (errors_is e eof) _ _ (inr (inl refl)) (inl refl))
by_domain-IsFailure e (some d) h = map_domain_error-IsFailure d

-- Every error is answered with 400, 404, 409, 422 or 504, or with the one answer for an unexpected
-- error, which has the status 500 and a fixed code and message.
pub service_answer-IsFailure : (e : Error) → IsFailure (service_answer e)
unfolding service_answer
service_answer-IsFailure e = IsFailure-if (errors_is e canceled) _ _ (inr (inl refl)) (
    IsFailure-if (errors_is e deadline_exceeded) _ _ (inr (inr (inr (inr (inr refl)))))
      (by_domain-IsFailure e (as_domain e) refl))

-- The codes under which the services report a failure of the database or of the retries.
abbrev pub IsInternal : ErrorCode → Type 0
IsInternal code =
    (code ≡ code_database_error) ⊎ (code ≡ code_transaction_failed) ⊎ (code ≡ code_internal_error)

internal_answer :
    (code : ErrorCode) (message : String) (cause : Option Error)
    → IsInternal code
    → map_domain_error (record { code = code; message = message; cause = cause }) ≡ unexpected
unfolding map_domain_error
internal_answer code message cause (inl h) = rw h refl
internal_answer code message cause (inr (inl h)) = rw h refl
internal_answer code message cause (inr (inr h)) = rw h refl

-- A failure that the services report under an internal code is answered by its cause's being a
-- cancellation or a timeout, and by nothing else: neither the message nor the cause is told.
pub service_answer-wrap_error :
    (code : ErrorCode) (message : String) (cause : Error)
    → IsInternal code
    → service_answer (wrap_error code message (some cause)) ≡ (
        if errors_is cause canceled
        then (400, "request_cancelled", "Request was cancelled")
        else if errors_is cause deadline_exceeded
        then (504, "timeout", "Request timed out")
        else unexpected)
unfolding service_answer wrap_error as_domain errors_is
service_answer-wrap_error code message cause h =
    rw (internal_answer code message (some cause) h) refl

pub service_answer_status : (e : Error) → 400 ≤ (service_answer e).0
service_answer_status e = at_least (service_answer e) (service_answer-IsFailure e)
  where
    at_least : (a : Answer) → IsFailure a → 400 ≤ a.0
    at_least a (inl h) = rw h (omega arith)
    at_least a (inr (inl h)) = omega arith
    at_least a (inr (inr (inl h))) = omega arith
    at_least a (inr (inr (inr (inl h)))) = omega arith
    at_least a (inr (inr (inr (inr (inl h))))) = omega arith
    at_least a (inr (inr (inr (inr (inr h))))) = omega arith
