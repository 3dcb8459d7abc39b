-- ===== src/Server/Application/Writes.antt =====
-- Every handler writes exactly one response.
use internal_transfers_syste.Base.{
  ℕ, ◌≡◌, refl, sym, subst, Option, none, some, String, [], ◌∷◌, ◌++◌, Bool-cases, inl, inr,
}
use internal_transfers_syste.Base.Int.{ℤ, pos, leb_ℤ}
use internal_transfers_syste.Base.Action.{Result, ok, err}
use internal_transfers_syste.Models.{
  Error, DecimalLib, Time, CreateAccountRequest, CreateTransactionRequest,
}
use internal_transfers_syste.Models
use internal_transfers_syste.Interfaces.{Backend}
use internal_transfers_syste.Service.Account as AccountService
use internal_transfers_syste.Service.Transfer.{transfer, default_transfer_config}
use internal_transfers_syste.Validator.{
  ValidationErrors, validate_create_account, validate_create_transaction,
}
use internal_transfers_syste.Handler.Response.{
  Payload, Writer, write_json, write_success, write_error, write_validation_error,
}
use internal_transfers_syste.Handler.ServiceError.{handle_service_error}
use internal_transfers_syste.Handler.Request.{JsonLib, decode_json_body, parse_int}
use internal_transfers_syste.Handler.Account
use internal_transfers_syste.Handler.Transaction
use internal_transfers_syste.Server.Middleware.{Platform}
use internal_transfers_syste.Server.Health.{write_server_json, handle_health, handle_ready}
use internal_transfers_syste.Server.Application.{
  Endpoint, health, ready, create_account, get_account, create_transaction, serve,
}

-- What was written to `out`: one JSON value, under its status.
abbrev pub Wrote : Writer → Writer → Type 0
Wrote out sent = (status : ℕ) × (p : Payload) × (sent ≡ write_json status p out)

module _ (out : Writer) where
  error-Wrote :
      (status : ℕ) (code message : String) → Wrote out (write_error status code message out)
  unfolding write_error
  error-Wrote status code message = (status, _, refl)

  success-Wrote : (status : ℕ) (p : Payload) → Wrote out (write_success status p out)
  unfolding write_success
  success-Wrote status p = (status, p, refl)

  service_error-Wrote : (e : Error) → Wrote out (handle_service_error e out)
  unfolding handle_service_error
  service_error-Wrote e = error-Wrote _ _ _

  validation-Wrote : (errs : ValidationErrors) → Wrote out (write_validation_error errs out)
  unfolding write_validation_error
  validation-Wrote errs = (400, _, refl)

  server-Wrote : (status : ℕ) (p : Payload) → Wrote out (write_server_json status p out)
  unfolding write_server_json write_json
  server-Wrote status p = (status, p, refl)

  module _ {D : DecimalLib} (B : Backend D) where
    account-Wrote :
        (status : ℕ) (x : Result Error (Models.Account D) × B.World)
        → Wrote out (Account.respond_account B status out x).0
    account-Wrote status (err e, w) = service_error-Wrote e
    account-Wrote status (ok a, w) = success-Wrote status _

    get_parsed-Wrote : (w : B.World) (o : Option ℤ) → Wrote out (Account.get_parsed B out w o).0
    get_parsed-Wrote w none = error-Wrote _ _ _
    get_parsed-Wrote w (some i) = elim (Bool-cases (leb_ℤ i (pos 0))) [
      | inl low ↦ rw low (error-Wrote _ _ _)
      | inr high ↦ rw high (account-Wrote 200 (AccountService.get_account B i w))
    ]

    create_validated-Wrote :
        (J : JsonLib) (req : CreateAccountRequest) (w : B.World) (errs : ValidationErrors)
        → Wrote out (Account.create_validated B J req out w errs).0
    create_validated-Wrote J req w [] = account-Wrote 201 (AccountService.create_account B req w)
    create_validated-Wrote J req w (e ∷ es) = validation-Wrote (e ∷ es)

    create_decoded-Wrote :
        (J : JsonLib) (w : B.World) (r : Result Error CreateAccountRequest)
        → Wrote out (Account.create_decoded B J out w r).0
    create_decoded-Wrote J w (err e) = error-Wrote _ _ _
    create_decoded-Wrote J w (ok req) =
        create_validated-Wrote J req w (validate_create_account D req)

    module _ (format_time : Time → String) (J : JsonLib) where
      transaction-Wrote :
          (x : Result Error (Models.Transaction D) × B.World)
          → Wrote out
              (Transaction.respond_transaction B default_transfer_config format_time out x).0
      transaction-Wrote (err e, w) = service_error-Wrote e
      transaction-Wrote (ok t, w) = success-Wrote 201 _

      transfer_validated-Wrote :
          (req : CreateTransactionRequest) (w : B.World) (errs : ValidationErrors)
          → Wrote out
              (Transaction.transfer_validated B default_transfer_config format_time J req out w
                errs).0
      transfer_validated-Wrote req w [] =
          transaction-Wrote (transfer B default_transfer_config req w)
      transfer_validated-Wrote req w (e ∷ es) = validation-Wrote (e ∷ es)

      transfer_decoded-Wrote :
          (w : B.World) (r : Result Error CreateTransactionRequest)
          → Wrote out
              (Transaction.transfer_decoded B default_transfer_config format_time J out w r).0
      transfer_decoded-Wrote w (err e) = error-Wrote _ _ _
      transfer_decoded-Wrote w (ok req) =
          transfer_validated-Wrote req w (validate_create_transaction D req)

pub serve-Wrote :
    {D : DecimalLib} (B : Backend D) (J : JsonLib) (P : Platform B.World)
    (ping : Option (B.World → Option Error × B.World)) (format_time : Time → String) (e : Endpoint)
    (id : String) (body : J.Body) (out : Writer) (w : B.World)
    → Wrote out (serve B J P ping format_time e id body out w).0
unfolding serve handle_health handle_ready Account.get_account Account.create_account
    Transaction.create_transaction
serve-Wrote B J P ping format_time health id body out w = server-Wrote out _ _
serve-Wrote B J P ping format_time ready id body out w = server-Wrote out _ _
serve-Wrote B J P ping format_time create_account id body out w =
    create_decoded-Wrote out B J w (decode_json_body J J.decode_account body)
serve-Wrote B J P ping format_time get_account id body out w =
    get_parsed-Wrote out B w (parse_int id)
serve-Wrote B J P ping format_time create_transaction id body out w =
    transfer_decoded-Wrote out B format_time J w (decode_json_body J J.decode_transaction body)

-- The response is one status and one value; the wrapper has seen that status, and counted that value.
abbrev pub Logged : Writer → Writer → Type 0
Logged out sent =
    (status : ℕ) × (p : Payload) × (sent.status ≡ some status)
    × (sent.status_code ≡ status)
    × (sent.body ≡ out.body ++ (p ∷ []))
    × (sent.written ≡ out.written ++ (p ∷ []))

write_json-Logged :
    (out : Writer) (status : ℕ) (p : Payload)
    → out.status ≡ none
    → Logged out (write_json status p out)
unfolding write_json
write_json-Logged out status p fresh =
    (status, p, rw fresh refl, rw fresh refl, rw fresh refl, rw fresh refl)

-- To a response not yet begun, every registered handler writes one status and one value; the status
-- that the log's wrapper saw is the one that the client gets, and the bytes that it counted are those
-- of the value.
pub serve-Logged :
    {D : DecimalLib} (B : Backend D) (J : JsonLib) (P : Platform B.World)
    (ping : Option (B.World → Option Error × B.World)) (format_time : Time → String) (e : Endpoint)
    (id : String) (body : J.Body) (out : Writer) (w : B.World)
    → out.status ≡ none
    → Logged out (serve B J P ping format_time e id body out w).0
serve-Logged B J P ping format_time e id body out w fresh =
    let (status, p, once) = serve-Wrote B J P ping format_time e id body out w in
    subst (Logged out) (sym once) (write_json-Logged out status p fresh)
