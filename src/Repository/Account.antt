-- ===== src/Repository/Account.antt =====
-- internal/repository/account_repository.go
use internal_transfers_syste.Base.{ℕ, String, ◌<>◌, Bool, if◌then◌else◌, ◌==◌}
use internal_transfers_syste.Base.Int.{ℤ, pos}
use internal_transfers_syste.Base.Format.{format_int}
use internal_transfers_syste.Base.Action.{Action, pure, raise, map_error, ◌>>=◌}
use internal_transfers_syste.Models.{
  Error, errorf, plain, no_rows, errors_is, err_account_not_found, DecimalLib, Account, Time,
}
use internal_transfers_syste.Repository.Driver.{
  Pgx, insert_account, select_account, select_account_for_update, account_exists, read_committed,
  read_write,
}

-- `fmt.Errorf(before + "%d" + after + ": %w", accountID, err)`
abbrev pub about_account : String → ℤ → String → Error → Error
about_account before account_id after e =
    errorf (before <> (format_int account_id <> (after <> ": "))) e

-- The two tests on the error of a lookup.
abbrev pub lookup_error : String → ℤ → String → Error → Error
lookup_error before account_id after e =
    if errors_is e no_rows then err_account_not_found else about_account before account_id after e

module _ {D : DecimalLib} (P : Pgx D) where
  open P use {World, Tx}

  -- `Scan(&account.CreatedAt, &account.UpdatedAt)`
  abbrev pub with_times : Account D → Time × Time → Action World Error (Account D)
  with_times account (created_at, updated_at) =
      pure (record account { created_at = created_at; updated_at = updated_at })

  unfoldable pub create : Account D → Action World Error (Account D)
  create account =
      map_error (about_account "insert account " account.account_id "")
        (P.query_row (insert_account account.account_id account.balance))
      >>= with_times account

  unfoldable pub get_by_id : ℤ → Action World Error (Account D)
  get_by_id account_id =
      map_error (lookup_error "get account " account_id "")
        (P.query_row (select_account account_id))

  unfoldable pub get_by_id_for_update : Tx → ℤ → Action World Error (Account D)
  get_by_id_for_update tx account_id =
      map_error (lookup_error "get account " account_id " for update")
        (P.tx_query_row tx (select_account_for_update account_id))

  -- The checks on the number of rows.
  abbrev pub one_row : ℤ → ℕ → Action World Error (Unit {0})
  one_row account_id rows_affected =
      if rows_affected == 0
      then raise err_account_not_found
      else if rows_affected == 1
      then pure tt
      else raise (
          plain (
            "expected 1 row affected, got "
            <> (format_int (pos rows_affected) <> (" for account " <> format_int account_id))))

  unfoldable pub update_balance : Tx → ℤ → D.Decimal → Action World Error (Unit {0})
  update_balance tx account_id new_balance =
      map_error (about_account "update balance for account " account_id "")
        (P.tx_update_balance tx new_balance account_id)
      >>= one_row account_id

  unfoldable pub exists : ℤ → Action World Error Bool
  exists account_id =
      map_error (about_account "check account " account_id " exists")
        (P.query_row (account_exists account_id))

  unfoldable pub begin_tx : Action World Error Tx
  begin_tx =
      map_error (errorf "begin transaction: ")
        (P.begin_tx (record { iso_level = read_committed; access_mode = read_write }))
