-- ===== src/Repository/Transaction.antt =====
-- internal/repository/transaction_repository.go
use internal_transfers_syste.Base.{◌<>◌, List, [], ◌∷◌, ◌++◌, Option, none, some, if◌then◌else◌}
use internal_transfers_syste.Base.Int.{ℤ}
use internal_transfers_syste.Base.Format.{format_int}
use internal_transfers_syste.Base.Action.{Result, Action, ok, err, pure, map_error, ◌>>=◌}
use internal_transfers_syste.Models.{
  Error, errorf, no_rows, errors_is, err_transfer_not_found, DecimalLib, Transaction, Time,
}
use internal_transfers_syste.Repository.Driver.{Pgx, Rows, insert_transaction, select_transaction}

module _ {D : DecimalLib} where
  -- The loop over `rows.Next()`, with the transactions so far.
  unfoldable pub scan_rows :
      List (Transaction D)
      → List (Result Error (Transaction D))
      → Result Error (List (Transaction D))
  scan_rows transactions [] = ok transactions
  scan_rows transactions (err e ∷ scans) = err (errorf "scan transaction row: " e)
  scan_rows transactions (ok t ∷ scans) = scan_rows (transactions ++ (t ∷ [])) scans

  -- The check of `rows.Err()` behind the loop.
  abbrev pub check_rows :
      Option Error → Result Error (List (Transaction D)) → Result Error (List (Transaction D))
  check_rows failure (err e) = err e
  check_rows none (ok transactions) = ok transactions
  check_rows (some e) (ok transactions) = err (errorf "iterate transaction rows: " e)

  unfoldable pub read_rows : Rows D → Result Error (List (Transaction D))
  read_rows rows = check_rows rows.failure (scan_rows [] rows.scans)

module _ {D : DecimalLib} (P : Pgx D) where
  open P use {World, Tx}

  -- `Scan(&transaction.TransactionID, &transaction.CreatedAt)`
  abbrev pub with_id : Transaction D → ℤ × Time → Action World Error (Transaction D)
  with_id transaction (transaction_id, created_at) =
      pure (record transaction { transaction_id = transaction_id; created_at = created_at })

  unfoldable pub create : Tx → Transaction D → Action World Error (Transaction D)
  create tx transaction =
      map_error (errorf "insert transaction: ") (
        P.tx_query_row tx (
          insert_transaction transaction.source_account_id transaction.destination_account_id
            transaction.amount))
      >>= with_id transaction

  unfoldable pub get_by_id : ℤ → Action World Error (Transaction D)
  get_by_id transaction_id =
      map_error
        (λ e.
          if errors_is e no_rows
          then err_transfer_not_found
          else errorf ("get transaction " <> (format_int transaction_id <> ": ")) e)
        (P.query_row (select_transaction transaction_id))

  unfoldable pub get_by_account_id : ℤ → ℤ → ℤ → Action World Error (List (Transaction D))
  get_by_account_id account_id limit offset w =
      let (r, w') =
        map_error (errorf ("query transactions for account " <> (format_int account_id <> ": ")))
          (P.query_transactions account_id limit offset) w in
      elim r [ err e ↦ (err e, w') | ok rows ↦ (read_rows rows, w') ]
