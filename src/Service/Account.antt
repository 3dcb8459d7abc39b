-- ===== src/Service/Account.antt =====
-- internal/service/account_service.go. The log calls are left out.
pub mod Create
use mathlib.Core.Bool.{◌||◌}
use internal_transfers_syste.Base.{Bool, true, false, Option, none, some, if◌then◌else◌}
use internal_transfers_syste.Base.Int.{ℤ}
use internal_transfers_syste.Base.Text.{codes, contains}
use internal_transfers_syste.Base.Action.{Result, ok, err, Action}
use internal_transfers_syste.Models.{
  Error, error_text, wrap_error, err_invalid_amount, err_account_already_exists,
  code_database_error, DecimalLib, parse_money, Account, CreateAccountRequest, zero_time,
}
use internal_transfers_syste.Interfaces.{Backend}

-- `isDuplicateKeyError`, of nil too.
unfoldable pub is_duplicate_key_error : Option Error → Bool
is_duplicate_key_error none = false
is_duplicate_key_error (some e) =
    contains (codes (error_text e)) (codes "duplicate key")
    || contains (codes (error_text e)) (codes "23505")

module _ {D : DecimalLib} (B : Backend D) where
  open B use {World}

  -- What follows `accountRepo.Create`.
  abbrev pub after_create : Result Error (Account D) × World → Result Error (Account D) × World
  after_create (ok account, w) = (ok account, w)
  after_create (err e, w) =
      if is_duplicate_key_error (some e)
      then (err err_account_already_exists, w)
      else (err (wrap_error code_database_error "failed to create account" (some e)), w)

  -- What follows `accountRepo.Exists`.
  abbrev pub after_exists :
      ℤ → D.Decimal → Result Error Bool × World → Result Error (Account D) × World
  after_exists account_id balance (err e, w) =
      (err (wrap_error code_database_error "failed to check account existence" (some e)), w)
  after_exists account_id balance (ok true, w) = (err err_account_already_exists, w)
  after_exists account_id balance (ok false, w) = after_create (
      B.accounts.create
        (record {
          account_id = account_id;
          balance = balance;
          created_at = zero_time;
          updated_at = zero_time;
        })
        w)

  unfoldable pub create_account : CreateAccountRequest → Action World Error (Account D)
  create_account req w = elim (parse_money D req.initial_balance) [
    | err e ↦ (err err_invalid_amount, w)
    | ok balance ↦
        if D.less_than balance D.zero
        then (err err_invalid_amount, w)
        else after_exists req.account_id balance (B.accounts.exists req.account_id w)
  ]

  unfoldable pub get_account : ℤ → Action World Error (Account D)
  get_account account_id = B.accounts.get_by_id account_id
