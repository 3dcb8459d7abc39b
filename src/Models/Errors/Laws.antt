-- ===== src/Models/Errors/Laws.antt =====
-- Laws of the error values: how a wrapped error is judged, matched and found.
use mathlib.Core.Bool.{◌||◌}
use text.Mathlib.Text.{◌==◌ as str_eq}
use internal_transfers_syste.Base.{
  ℕ, String, ◌<>◌, ◌≡◌, refl, ◌≢◌, true, false, none, some, List, [], ◌∷◌, ◌++◌, arith,
}
use internal_transfers_syste.Base.Text.{
  codes, contains, to_lower, to_lower-append, contains-append_right,
}
use internal_transfers_syste.Models.Errors.{
  ErrorCode, Error, domain, domain_cause, errorf, plain, canceled, deadline_exceeded, eof, no_rows,
  error_text, errors_is, as_domain, wrap_error, any_pattern, is_retryable, retry_patterns,
  err_account_not_found, err_insufficient_balance,
}

any_pattern-append_right :
    (s t : List ℕ) (patterns : List String)
    → any_pattern t patterns ≡ true
    → any_pattern (s ++ t) patterns ≡ true
unfolding any_pattern
any_pattern-append_right s t [] h = h
any_pattern-append_right s t (p ∷ patterns) h =
    ground (arith, contains-append_right s t (codes p), any_pattern-append_right s t patterns)

-- A text that a retry pattern is found in, behind any prefix.
retryable_behind :
    (prefix text : String)
    → any_pattern (to_lower text) retry_patterns ≡ true
    → any_pattern (to_lower (prefix <> text)) retry_patterns ≡ true
retryable_behind prefix text h =
    rw (to_lower-append prefix text)
      (any_pattern-append_right (to_lower prefix) (to_lower text) _ h)

-- A transient error stays transient under every wrapping that the services put around it:
-- `WrapError` with any code and message, and `fmt.Errorf` with `%w` and any prefix.
pub is_retryable-wrap_error :
    (code : ErrorCode) (message prefix : String) (e : Error)
    → is_retryable (some e) ≡ true
    → (is_retryable (some (wrap_error code message (some e))) ≡ true)
      × (is_retryable (some (errorf prefix e)) ≡ true)
unfolding is_retryable wrap_error error_text
is_retryable-wrap_error code message prefix e h = (
  retryable_behind code _ (
      retryable_behind ": " _
        (retryable_behind message _ (retryable_behind ": " (error_text e) h))),
  retryable_behind prefix (error_text e) h,
)

-- `errors.Is` finds a domain error only in a chain that `errors.As` finds one in.
pub errors_is-as_domain :
    (e : Error) (code : ErrorCode) (message : String)
    → errors_is e (domain code message) ≡ true
    → as_domain e ≢ none
unfolding errors_is as_domain
errors_is-as_domain (domain c m) code message h = λ q. cc
errors_is-as_domain (domain_cause c m e) code message h = λ q. cc
errors_is-as_domain (errorf p e) code message h = errors_is-as_domain e code message h
errors_is-as_domain (plain text) code message h = λ q. cc
errors_is-as_domain canceled code message h = λ q. cc
errors_is-as_domain deadline_exceeded code message h = λ q. cc
errors_is-as_domain eof code message h = λ q. cc
errors_is-as_domain no_rows code message h = λ q. cc

-- A wrapped error is matched by its own code, and by whatever its cause is matched by.
pub errors_is-wrap_error :
    (code c : ErrorCode) (message m : String) (e : Error)
    → errors_is (wrap_error code message (some e)) (domain c m)
      ≡ (str_eq code c || errors_is e (domain c m))
unfolding errors_is wrap_error
errors_is-wrap_error code c message m e = refl

-- The errors that a transfer is refused with are final: no retry pattern is in their texts.
pub refusals_final :
    (is_retryable (some err_account_not_found) ≡ false)
    × (is_retryable (some err_insufficient_balance) ≡ false)
unfolding is_retryable any_pattern contains to_lower error_text
refusals_final = (refl, refl)
