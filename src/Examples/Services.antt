-- ===== src/Examples/Services.antt =====
-- The other operations of the services, the validators and the rows of a query, run on samples.
use internal_transfers_syste.Base.{
  ◌+◌, ◌*◌, ◌^◌, ◌≡◌, refl, ◌↔◌, ◌≢◌, false, true, none, some, [], arith,
}
use internal_transfers_syste.Base.Int.{ℤ, pos, ◌≤ℤ◌}
use internal_transfers_syste.Base.Action.{Triple, ok}
use internal_transfers_syste.Base.Text.{codes, contains, to_lower, has_prefix}
use internal_transfers_syste.Models.{
  plain, canceled, is_retryable, any_pattern, error_text, wrap_error, errorf, code_database_error,
}
use internal_transfers_syste.Models.Errors.Laws.{is_retryable-wrap_error}
use internal_transfers_syste.Service.Transfer.{
  default_transfer_config, execute_transfer, get_account_transactions,
}
use internal_transfers_syste.Service.Transfer.Spec.{Done, Failure}
use internal_transfers_syste.Service.Transfer.Attempt.{execute_transfer-Triple}
use internal_transfers_syste.Service.Transfer.Backoff.{total_delay, total_delay_lem}
use internal_transfers_syste.Service.Transfer.Page.{
  LimitFor, OffsetFor, get_account_transactions_page,
}
use internal_transfers_syste.Service.Account.{create_account}
use internal_transfers_syste.Service.Account.Create.{Outcome, create_account-Outcome}
use internal_transfers_syste.Validator.{validate_create_account, validate_create_transaction}
use internal_transfers_syste.Validator.Accepts.{
  Holds, validate_create_account_iff, validate_create_transaction_iff,
}
use internal_transfers_syste.Repository.Driver.{Rows}
use internal_transfers_syste.Repository.Transaction.{read_rows}
use internal_transfers_syste.Repository.Rows.{scanned, read_rows_iff}
use internal_transfers_syste.Examples.Whole.{whole_decimals, whole_exact}
use internal_transfers_syste.Examples.Memory.{memory, memory_lawful, World}
use internal_transfers_syste.Examples.Accounts.{
  opening, opening-IsSolvent, start, thirty, new_account, apart,
}

execute_transfer-Triple_example :
    Triple
      (λ (w : World). w.stored ≡ opening)
      (execute_transfer (memory true) (pos 1) (pos 2) (pos 30))
      (λ t w. Done whole_exact opening (pos 1) (pos 2) (pos 30) t w.stored)
      (λ e w. Failure whole_exact (memory_lawful true) opening (pos 1) (pos 2) (pos 30) e w.stored)
unfolding memory_lawful
execute_transfer-Triple_example =
    execute_transfer-Triple whole_exact (memory_lawful true) opening (pos 1) (pos 2) (pos 30) apart
      refl opening-IsSolvent

create_account-Outcome_example :
    Outcome whole_exact
      (memory_lawful false)
      opening
      new_account
      (start false)
      (create_account (memory false) new_account (start false))
unfolding memory_lawful
create_account-Outcome_example =
    create_account-Outcome whole_exact (memory_lawful false) opening new_account (start false) refl

-- The default configuration pauses 100, 200 and 400 milliseconds.
total_delay_lem_example : total_delay default_transfer_config 3 + 100_000_000 ≡ 100_000_000 * 2 ^ 3
total_delay_lem_example = total_delay_lem 100_000_000 2 (pos 3) (omega arith) (omega arith)

get_account_transactions_page_example :
    (l : ℤ) × (o : ℤ) × (get_account_transactions (memory false) (pos 1) (pos 500) (pos 7)
      ≡ (memory false).transactions.get_by_account_id (pos 1) l o)
    × (pos 1 ≤ℤ l)
    × (l ≤ℤ pos 100)
    × (pos 0 ≤ℤ o)
    × LimitFor (pos 500) l
    × OffsetFor (pos 7) o
get_account_transactions_page_example =
    get_account_transactions_page (memory false) (pos 1) (pos 500) (pos 7)

validate_create_account_iff_example :
    (validate_create_account whole_decimals new_account ≡ [])
    ↔ ((pos 1 ≤ℤ pos 3) × Holds whole_decimals (λ b. whole_decimals.less_than b (pos 0)) "25")
validate_create_account_iff_example = validate_create_account_iff whole_decimals new_account

validate_create_transaction_iff_example :
    (validate_create_transaction whole_decimals thirty ≡ []) ↔ (
      (pos 1 ≤ℤ pos 1)
      × (pos 1 ≤ℤ pos 2)
      × (pos 1 ≢ pos 2)
      × Holds whole_decimals (λ a. whole_decimals.less_than_or_equal a (pos 0)) "30")
validate_create_transaction_iff_example = validate_create_transaction_iff whole_decimals thirty

-- A query that broke off.
abbrev broken_off : Rows whole_decimals
broken_off = record { scans = []; failure = some canceled }

read_rows_iff_example :
    (read_rows broken_off ≡ ok []) ↔ ((broken_off.scans ≡ scanned []) × (broken_off.failure ≡ none))
read_rows_iff_example = read_rows_iff broken_off []

reset_retryable : is_retryable (some (plain "connection reset by peer")) ≡ true
unfolding is_retryable any_pattern contains to_lower error_text codes has_prefix
reset_retryable = refl

reset_stays_retryable :
    (is_retryable (
        some (
          wrap_error code_database_error "failed to commit transaction"
            (some (plain "connection reset by peer"))))
      ≡ true)
    × (is_retryable (some (errorf "retry: " (plain "connection reset by peer"))) ≡ true)
reset_stays_retryable =
    is_retryable-wrap_error code_database_error "failed to commit transaction" "retry: "
      (plain "connection reset by peer") reset_retryable
