-- ===== src/Handler/Transaction/Outcome.antt =====
-- The endpoint for transfers, from the body of the request to the ledger: the client is told 201
-- exactly if the transfer is done.
use internal_transfers_syste.Base.{
  true, ◌≢◌, ◌≡◌, refl, ◌⊎◌, inl, inr, none, some, String, [], ◌∷◌, ◌++◌,
}
use internal_transfers_syste.Base.Action.{Result, ok, err}
use internal_transfers_syste.Models.{
  Error, DecimalLib, Exact, Transaction, Time, CreateTransactionRequest, parse_money,
}
use internal_transfers_syste.Interfaces.{Backend}
use internal_transfers_syste.Interfaces.Ledger.{Ledger}
use internal_transfers_syste.Interfaces.Contract.{IsLawful}
use internal_transfers_syste.Service.Transfer.{TransferServiceConfig, transfer}
use internal_transfers_syste.Service.Transfer.Spec.{IsSolvent, Done}
use internal_transfers_syste.Service.Transfer.Retry
use internal_transfers_syste.Validator.{ValidationErrors, validate_create_transaction}
use internal_transfers_syste.Handler.Response.{
  Payload, Writer, write_json, write_error, write_success, write_validation_error,
}
use internal_transfers_syste.Handler.Response
use internal_transfers_syste.Handler.Failed.{
  write_json-status, write_json-body, Failed, handle_service_error-Failed, validation-Failed,
  invalid_json-Failed,
}
use internal_transfers_syste.Handler.Request.{JsonLib, decode_json_body}
use internal_transfers_syste.Handler.Transaction.{
  transaction_response, respond_transaction, transfer_validated, transfer_decoded,
  create_transaction,
}

module _ {D : DecimalLib} (X : Exact D) {B : Backend D} (law : IsLawful X B) (L : Ledger X.Quantity)
    (answered : (e : Error) → ¬ (law.Lost e)) (config : TransferServiceConfig)
    (solvent : IsSolvent X L) (format_time : Time → String) (J : JsonLib) (body : J.Body)
    (out : Writer) (fresh : out.status ≡ none) where
  open law use {committed}

  -- The response says that the transfer of the request in the body was created, and it was.
  abbrev pub Confirmed : Writer × B.World → Type 0
  Confirmed (sent, w) =
      (req : CreateTransactionRequest) × (amount : D.Decimal) × (t : Transaction D)
      × (decode_json_body J J.decode_transaction body ≡ ok req)
      × (parse_money D req.amount ≡ ok amount)
      × (X.lt X.origin (X.value amount) ≡ true)
      × (req.source_account_id ≢ req.destination_account_id)
      × Done X L req.source_account_id req.destination_account_id amount t (committed w)
      × (sent.status ≡ some 201)
      × (sent.body
          ≡ out.body ++ (Response.transaction (transaction_response B config format_time t) ∷ []))

  -- The response says that something is wrong, and nothing has changed.
  abbrev pub Denied : Writer × B.World → Type 0
  Denied (sent, w) = (committed w ≡ L) × Failed sent

  responded :
      (req : CreateTransactionRequest)
      → decode_json_body J J.decode_transaction body ≡ ok req
      → (x : Result Error (Transaction D) × B.World)
      → Retry.Outcome X law L answered config req solvent x
      → Confirmed (respond_transaction B config format_time out x)
        ⊎ Denied (respond_transaction B config format_time out x)
  unfolding write_success
  responded req decoded (ok t, w) (amount, parsed, positive, apart, done) = inl (
    req,
    amount,
    t,
    decoded,
    parsed,
    positive,
    apart,
    done,
    write_json-status _ _ out fresh,
    write_json-body _ _ out fresh,
  )
  responded req decoded (err e, w) (same, why) = inr (same, handle_service_error-Failed e out fresh)

  validated :
      (req : CreateTransactionRequest)
      → decode_json_body J J.decode_transaction body ≡ ok req
      → (w : B.World) → committed w ≡ L
      → (errs : ValidationErrors)
      → Confirmed (transfer_validated B config format_time J req out w errs)
        ⊎ Denied (transfer_validated B config format_time J req out w errs)
  validated req decoded w h [] =
      responded req decoded (transfer B config req w)
        (Retry.transfer-Outcome X law L answered config req solvent w h)
  validated req decoded w h (e ∷ es) = inr (h, validation-Failed (e ∷ es) out fresh)

  by_body :
      (w : B.World)
      → committed w ≡ L
      → (r : Result Error CreateTransactionRequest)
      → decode_json_body J J.decode_transaction body ≡ r
      → Confirmed (transfer_decoded B config format_time J out w r)
        ⊎ Denied (transfer_decoded B config format_time J out w r)
  by_body w h (err e) decoded = inr (h, invalid_json-Failed out fresh)
  by_body w h (ok req) decoded = validated req decoded w h (validate_create_transaction D req)

  -- Over a lawful backend that loses no answer, with a solvent ledger and a response not yet begun,
  -- the endpoint answers 201 with the transfer that the body asks for, which is of an amount above zero
  -- between two different accounts and is done on the ledger; or it answers with a
  -- status of 400 or above, and the ledger is as it was.
  pub create_transaction_outcome :
      (w : B.World)
      → committed w ≡ L
      → Confirmed (create_transaction B config format_time J body out w)
        ⊎ Denied (create_transaction B config format_time J body out w)
  unfolding create_transaction
  create_transaction_outcome w h = by_body w h (decode_json_body J J.decode_transaction body) refl
