-- ===== src/Examples/Tests.antt =====
-- Runs of single functions, and of a whole transfer.
use internal_transfers_syste.Base.{◌≡◌, refl, false, true, none, some}
use internal_transfers_syste.Base.Int.{pos, negsuc, ◌+ℤ◌, ◌-ℤ◌, ◌*ℤ◌, wrap64}
use internal_transfers_syste.Base.Text.{codes, contains, to_lower, has_prefix}
use internal_transfers_syste.Base.Format.{format_int}
use internal_transfers_syste.Base.Action.{err}
use internal_transfers_syste.Models.{
  parse_money, wrap_error, errors_is, err_same_account, err_insufficient_balance, plain,
  is_retryable, any_pattern, error_text,
}
use internal_transfers_syste.Handler.Request.{parse_int, parse_codes, parse_magnitude, parse_digits}
use internal_transfers_syste.Service.Transfer.{
  default_transfer_config, retry_delay, transfer, retry_loop, pause, execute_transfer,
  in_transaction, move_money, page_limit, page_offset,
}
use internal_transfers_syste.Examples.Memory.{memory}
use internal_transfers_syste.Examples.Accounts.{start, thirty, thousand}

parse_negative : parse_int "-42" ≡ some (negsuc 41)
unfolding parse_int parse_codes parse_magnitude parse_digits codes
parse_negative = refl

parse_too_large : parse_int "9223372036854775808" ≡ none
unfolding parse_int parse_codes parse_magnitude parse_digits codes
parse_too_large = refl

parse_letters : parse_int "12a" ≡ none
unfolding parse_int parse_codes parse_magnitude parse_digits codes
parse_letters = refl

format_negative : format_int (negsuc 41) ≡ "-42"
unfolding format_int
format_negative = refl

second_delay : retry_delay default_transfer_config 1 ≡ pos 200_000_000
unfolding retry_delay wrap64 ◌*ℤ◌
second_delay = refl

page_defaults :
    (page_limit (pos 0) ≡ pos 20)
    × (page_limit (pos 101) ≡ pos 100)
    × (page_offset (negsuc 0) ≡ pos 0)
unfolding page_limit page_offset
page_defaults = (refl, refl, refl)

wrapped_found :
    errors_is (wrap_error "database_error" "failed" (some err_same_account)) err_same_account ≡ true
unfolding errors_is wrap_error
wrapped_found = refl

deadlock_retried : is_retryable (some (plain "ERROR: Deadlock detected (SQLSTATE 40P01)")) ≡ true
unfolding is_retryable any_pattern contains to_lower error_text codes has_prefix
deadlock_retried = refl

thirty_moved :
    ((transfer (memory false) default_transfer_config thirty (start false)).1.stored.balances
        (pos 1)
      ≡ some (pos 70))
    × ((transfer (memory false) default_transfer_config thirty (start false)).1.stored.balances
          (pos 2)
        ≡ some (pos 80))
unfolding transfer retry_loop pause execute_transfer in_transaction move_money parse_money parse_int
    parse_codes parse_magnitude parse_digits codes ◌+ℤ◌ ◌-ℤ◌
thirty_moved = (refl, refl)

thousand_refused :
    (transfer (memory false) default_transfer_config thousand (start false)).0
    ≡ err err_insufficient_balance
unfolding transfer retry_loop pause execute_transfer in_transaction move_money parse_money parse_int
    parse_codes parse_magnitude parse_digits codes ◌+ℤ◌ ◌-ℤ◌ is_retryable any_pattern contains
    to_lower error_text has_prefix
thousand_refused = refl
