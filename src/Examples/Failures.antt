-- ===== src/Examples/Failures.antt =====
-- Runs in which something fails: a lost answer to a commit, and an insertion that fails.
use internal_transfers_syste.Base.{◌≡◌, refl, true, false, none, some, arith}
use internal_transfers_syste.Base.Int.{ℤ, pos, ◌+ℤ◌, ◌-ℤ◌}
use internal_transfers_syste.Base.Text.{codes, contains, to_lower, has_prefix}
use internal_transfers_syste.Base.Format.{format_int}
use internal_transfers_syste.Base.Action.{ok, err, Action}
use internal_transfers_syste.Models.{
  Error, plain, no_rows, domain_cause, code_database_error, is_retryable, any_pattern, error_text,
  wrap_error, Transaction, zero_time, err_account_already_exists, CreateAccountRequest, parse_money,
}
use internal_transfers_syste.Handler.Request.{parse_int, parse_codes, parse_magnitude, parse_digits}
use internal_transfers_syste.Service.Transfer.{
  default_transfer_config, execute_transfer, in_transaction, move_money, transfer,
}
use internal_transfers_syste.Service.Transfer.Spec.{Done}
use internal_transfers_syste.Service.Transfer.Repeat.{PaidTwice, transfer_repeats}
use internal_transfers_syste.Service.Account.{create_account}
use internal_transfers_syste.Repository.{repositories}
use internal_transfers_syste.Repository.Driver.{
  Pgx, RowQuery, Row, insert_account, select_account, select_account_for_update, account_exists,
  insert_transaction, select_transaction,
}
use internal_transfers_syste.Repository.Duplicate.{create_account_misreports}
use internal_transfers_syste.Examples.Whole.{whole_decimals, whole_exact}
use internal_transfers_syste.Examples.Memory.{World, memory, memory_lawful}
use internal_transfers_syste.Examples.Accounts.{
  opening, opening-IsSolvent, start, thirty, thirty_parsed, apart,
}

abbrev reset : Error
reset = plain "connection reset by peer"

abbrev receipt : ℤ → Transaction whole_decimals
receipt id = record {
  transaction_id = id;
  source_account_id = pos 1;
  destination_account_id = pos 2;
  amount = pos 30;
  created_at = zero_time;
}

abbrev after_first : World
after_first = (execute_transfer (memory true) (pos 1) (pos 2) (pos 30) (start true)).1

abbrev after_second : World
after_second = (execute_transfer (memory true) (pos 1) (pos 2) (pos 30) after_first).1

first_run :
    execute_transfer (memory true) (pos 1) (pos 2) (pos 30) (start true)
    ≡ (err (domain_cause code_database_error "failed to commit transaction" reset), after_first)
unfolding execute_transfer in_transaction move_money wrap_error ◌-ℤ◌ ◌+ℤ◌
first_run = refl

second_run :
    execute_transfer (memory true) (pos 1) (pos 2) (pos 30) after_first
    ≡ (ok (receipt (pos 2)), after_second)
unfolding execute_transfer in_transaction move_money wrap_error ◌-ℤ◌ ◌+ℤ◌
second_run = refl

first-Done : Done whole_exact opening (pos 1) (pos 2) (pos 30) (receipt (pos 1)) after_first.stored
unfolding execute_transfer in_transaction move_money wrap_error ◌-ℤ◌ ◌+ℤ◌
first-Done = (
  record {
    before = pos 100;
    after = pos 70;
    other = pos 50;
    held = refl;
    known = refl;
    paid = refl;
    covered = refl;
    result = refl;
  },
  refl,
  refl,
  refl,
)

reset_transient : is_retryable (some reset) ≡ true
unfolding is_retryable any_pattern contains to_lower error_text codes has_prefix
reset_transient = refl

transfer_repeats_example :
    (transfer (memory true) default_transfer_config thirty (start true)
      ≡ (ok (receipt (pos 2)), after_second))
    × PaidTwice whole_exact
        (memory_lawful true)
        opening
        opening-IsSolvent
        default_transfer_config
        thirty
        (pos 30)
        thirty_parsed
        refl
        apart
        (omega arith)
        after_second.stored
unfolding memory_lawful
transfer_repeats_example =
    transfer_repeats whole_exact (memory_lawful true) opening opening-IsSolvent
      default_transfer_config thirty (pos 30) thirty_parsed refl apart (omega arith) (start true)
      after_first after_first after_second reset (receipt (pos 1)) (receipt (pos 2)) first_run
      first-Done reset_transient refl second_run

-- A driver whose database has no space left for an insertion.
abbrev answer : (q : RowQuery whole_decimals) → Action (Unit {0}) Error (Row q)
answer (account_exists _) w = (ok false, w)
answer (insert_account _ _) w = (err (plain "disk full"), w)
answer (select_account _) w = (err no_rows, w)
answer (select_account_for_update _) w = (err no_rows, w)
answer (insert_transaction _ _ _) w = (err (plain "disk full"), w)
answer (select_transaction _) w = (err no_rows, w)

abbrev full_disk : Pgx whole_decimals
full_disk = record {
  World = Unit {0};
  Tx = Unit {0};
  query_row = answer;
  tx_query_row = λ tx q w. (err (plain "disk full"), w);
  tx_update_balance = λ tx d i w. (ok 0, w);
  query_transactions = λ i limit offset w. (err (plain "disk full"), w);
  begin_tx = λ options w. (ok tt, w);
  commit = λ tx w. (ok tt, w);
  rollback = λ tx w. (ok tt, w);
  wait = λ delay w. (none, w);
}

-- A new account whose number has the digits 23505.
abbrev unlucky : CreateAccountRequest
unlucky = record { account_id = pos 123_505; initial_balance = "25" }

unlucky_parsed : parse_money whole_decimals "25" ≡ ok (pos 25)
unfolding parse_money parse_int parse_codes parse_magnitude parse_digits codes
unlucky_parsed = refl

unlucky_holds : contains (codes (format_int (pos 123_505))) (codes "23505") ≡ true
unfolding contains codes has_prefix format_int
unlucky_holds = refl

create_account_misreports_example :
    create_account (repositories full_disk) unlucky tt ≡ (err err_account_already_exists, tt)
create_account_misreports_example =
    create_account_misreports full_disk unlucky (pos 25) (plain "disk full") tt tt tt unlucky_holds
      unlucky_parsed refl refl refl
