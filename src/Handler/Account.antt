-- ===== src/Handler/Account.antt =====
-- The endpoints of internal/handler/account_handler.go.
pub mod Outcome
pub mod RoundTrip
use internal_transfers_syste.Base.{ℕ, String, Option, none, some, [], ◌∷◌, if◌then◌else◌}
use internal_transfers_syste.Base.Int.{ℤ, pos, leb_ℤ}
use internal_transfers_syste.Base.Action.{Result, ok, err}
use internal_transfers_syste.Models.{
  Error, DecimalLib, Account, CreateAccountRequest, GetAccountResponse,
}
use internal_transfers_syste.Interfaces.{Backend}
use internal_transfers_syste.Service.Account
use internal_transfers_syste.Validator.{ValidationErrors, validate_create_account}
use internal_transfers_syste.Handler.Response.{
  Writer, write_error, write_success, write_validation_error,
}
use internal_transfers_syste.Handler.Response
use internal_transfers_syste.Handler.ServiceError.{handle_service_error}
use internal_transfers_syste.Handler.Request.{JsonLib, decode_json_body, parse_int}

module _ {D : DecimalLib} (B : Backend D) where
  open B use {World}

  abbrev pub account_response : Account D → GetAccountResponse
  account_response account = record {
    account_id = account.account_id;
    balance = D.to_string account.balance;
  }

  -- What both endpoints do with the result of the service.
  abbrev pub respond_account : ℕ → Writer → Result Error (Account D) × World → Writer × World
  respond_account status out (err e, w) = (handle_service_error e out, w)
  respond_account status out (ok account, w) =
      (write_success status (Response.account (account_response account)) out, w)

  -- What follows `strconv.ParseInt`.
  abbrev pub get_parsed : Writer → World → Option ℤ → Writer × World
  get_parsed out w none = (write_error 400 "invalid_id" "Account ID must be a valid integer" out, w)
  get_parsed out w (some account_id) =
      if leb_ℤ account_id (pos 0)
      then (write_error 400 "invalid_id" "Account ID must be a positive integer" out, w)
      else respond_account 200 out (Account.get_account B account_id w)

  unfoldable pub get_account : String → Writer → World → Writer × World
  get_account id out w = get_parsed out w (parse_int id)

  module _ (J : JsonLib) where
    -- What is said of the request, and the service if nothing is.
    abbrev pub create_validated :
        CreateAccountRequest → Writer → World → ValidationErrors → Writer × World
    create_validated req out w [] = respond_account 201 out (Account.create_account B req w)
    create_validated req out w (e ∷ es) = (write_validation_error (e ∷ es) out, w)

    abbrev pub create_decoded : Writer → World → Result Error CreateAccountRequest → Writer × World
    create_decoded out w (err e) = (write_error 400 "invalid_json" "Invalid JSON body" out, w)
    create_decoded out w (ok req) = create_validated req out w (validate_create_account D req)

    unfoldable pub create_account : J.Body → Writer → World → Writer × World
    create_account body out w = create_decoded out w (decode_json_body J J.decode_account body)
