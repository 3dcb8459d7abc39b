-- ===== src/Handler/Transaction.antt =====
-- internal/handler/transaction_handler.go
pub mod Outcome
use internal_transfers_syste.Base.{ℕ, String, [], ◌∷◌}
use internal_transfers_syste.Base.Action.{Result, ok, err}
use internal_transfers_syste.Models.{Error, DecimalLib, Transaction, Time, CreateTransactionRequest}
use internal_transfers_syste.Interfaces.{Backend}
use internal_transfers_syste.Service.Transfer.{TransferServiceConfig, transfer}
use internal_transfers_syste.Validator.{ValidationErrors, validate_create_transaction}
use internal_transfers_syste.Handler.Response.{
  Writer, TransactionResponse, write_error, write_success, write_validation_error,
}
use internal_transfers_syste.Handler.Response
use internal_transfers_syste.Handler.ServiceError.{handle_service_error}
use internal_transfers_syste.Handler.Request.{JsonLib, decode_json_body}

-- `format_time` is `time.Time.Format` at RFC 3339.
module _ {D : DecimalLib} (B : Backend D) (config : TransferServiceConfig)
    (format_time : Time → String) where
  open B use {World}

  abbrev pub transaction_response : Transaction D → TransactionResponse
  transaction_response txn = record {
    transaction_id = txn.transaction_id;
    source_account_id = txn.source_account_id;
    destination_account_id = txn.destination_account_id;
    amount = D.to_string txn.amount;
    created_at = format_time txn.created_at;
  }

  abbrev pub respond_transaction : Writer → Result Error (Transaction D) × World → Writer × World
  respond_transaction out (err e, w) = (handle_service_error e out, w)
  respond_transaction out (ok txn, w) =
      (write_success 201 (Response.transaction (transaction_response txn)) out, w)

  module _ (J : JsonLib) where
    -- What is said of the request, and the service if nothing is.
    abbrev pub transfer_validated :
        CreateTransactionRequest → Writer → World → ValidationErrors → Writer × World
    transfer_validated req out w [] = respond_transaction out (transfer B config req w)
    transfer_validated req out w (e ∷ es) = (write_validation_error (e ∷ es) out, w)

    abbrev pub transfer_decoded :
        Writer → World → Result Error CreateTransactionRequest → Writer × World
    transfer_decoded out w (err e) = (write_error 400 "invalid_json" "Invalid JSON body" out, w)
    transfer_decoded out w (ok req) =
        transfer_validated req out w (validate_create_transaction D req)

    unfoldable pub create_transaction : J.Body → Writer → World → Writer × World
    create_transaction body out w =
        transfer_decoded out w (decode_json_body J J.decode_transaction body)
