-- ===== src/Examples/Mocked.antt =====
-- A transfer over the mocks, with an error set for the record.
use internal_transfers_syste.Base.{◌≡◌, refl, some, none, arith}
use internal_transfers_syste.Base.Int.{pos}
use internal_transfers_syste.Models.{plain}
use internal_transfers_syste.Service.Transfer.{execute_transfer}
use internal_transfers_syste.Mocks.{World, TransactionErrors, new_world, set_account}
use internal_transfers_syste.Mocks.Unsafe.{mocked, mocked_end, execute_transfer-mocked}
use internal_transfers_syste.Examples.Whole.{whole_decimals}
use internal_transfers_syste.Examples.Memory.{account_of}

abbrev no_record : TransactionErrors whole_decimals
no_record = record {
  create_error = some (plain "create failed");
  get_by_id_error = none;
  get_by_account_id_error = none;
}

abbrev two_accounts : World whole_decimals
two_accounts =
    set_account (account_of (pos 1) (pos 100))
      (set_account (account_of (pos 2) (pos 50)) (new_world whole_decimals))

mocked_failure :
    execute_transfer (mocked no_record (λ d w. (none, w))) (pos 1) (pos 2) (pos 30) two_accounts
    ≡ mocked_end no_record
        (λ d w. (none, w))
        (pos 30)
        two_accounts
        (account_of (pos 1) (pos 100))
        (account_of (pos 2) (pos 50))
mocked_failure =
    execute_transfer-mocked no_record (λ d w. (none, w)) (pos 30) two_accounts
      (account_of (pos 1) (pos 100)) (account_of (pos 2) (pos 50)) (λ e. ground arith) refl refl
      refl
