-- ===== src/Examples/Endpoints.antt =====
-- The endpoints and their answers, run on samples.
use internal_transfers_syste.Base.{
  arith, ◌≡◌, refl, ap, subst, ◌⊎◌, inl, false, Option, none, some, [], ◌∷◌, if◌then◌else◌,
}
use internal_transfers_syste.Base.Int.{ℤ, pos, IsInt64}
use internal_transfers_syste.Base.Text.{codes}
use internal_transfers_syste.Base.Format.{format_int}
use internal_transfers_syste.Base.Action.{Result, ok, err}
use internal_transfers_syste.Models.{
  Error, plain, canceled, deadline_exceeded, eof, errors_is, as_domain, wrap_error,
  code_database_error, parse_money, CreateAccountRequest, CreateTransactionRequest,
}
use internal_transfers_syste.Service.Account as Service
use internal_transfers_syste.Validator.{validate_create_account}
use internal_transfers_syste.Service.Transfer.{default_transfer_config}
use internal_transfers_syste.Handler.Response.{Writer, write_success, write_json}
use internal_transfers_syste.Handler.Request.{
  JsonLib, decode_json_body, parse_int, parse_codes, parse_magnitude, parse_digits,
}
use internal_transfers_syste.Handler.ServiceError.{service_answer, plain_answer, unexpected}
use internal_transfers_syste.Handler.ServiceError.Laws.{
  IsFailure, plain_answer_dead, service_answer-IsFailure, service_answer-wrap_error,
}
use internal_transfers_syste.Handler.Account
use internal_transfers_syste.Handler.Account.Outcome.{
  Answered, get_account-Answered, Opened, NotOpened, create_account_opens,
}
use internal_transfers_syste.Handler.Account.RoundTrip.{ShowsBalance, create_account-get_account}
use internal_transfers_syste.Handler.Transaction.{create_transaction}
use internal_transfers_syste.Handler.Transaction.Outcome.{
  Confirmed, Denied, create_transaction_outcome,
}
use internal_transfers_syste.Examples.Whole.{whole_decimals, whole_exact}
use internal_transfers_syste.Examples.Memory.{memory, memory_lawful, World}
use internal_transfers_syste.Examples.Accounts.{
  opening, opening-IsSolvent, start, thirty, new_account, answered, calm,
}

abbrev pub decoded_body : Option CreateTransactionRequest → Result Error CreateTransactionRequest
decoded_body none = err eof
decoded_body (some req) = ok req

-- Bodies that are decoded already; an empty one is `none`.
abbrev pub decoded : JsonLib
decoded = record {
  Body = Option CreateTransactionRequest;
  limit = λ n body. body;
  decode_account = λ body. (ok new_account, none);
  decode_transaction = λ body. (decoded_body body, none);
  more = λ body. false;
}

abbrev pub fresh : Writer
fresh = record {
  headers = ("X-Request-ID", "0123456789abcdef") ∷ [];
  status = none;
  body = [];
  status_code = 200;
  written = [];
}

abbrev served : Writer × World
served =
    create_transaction (memory false) default_transfer_config format_int decoded (some thirty) fresh
      (start false)

create_transaction_outcome_example :
    Confirmed whole_exact
      (memory_lawful false)
      opening
      answered
      default_transfer_config
      opening-IsSolvent
      format_int
      decoded
      (some thirty)
      fresh
      refl
      served
    ⊎ Denied whole_exact
        (memory_lawful false)
        opening
        answered
        default_transfer_config
        opening-IsSolvent
        format_int
        decoded
        (some thirty)
        fresh
        refl
        served
unfolding memory_lawful
create_transaction_outcome_example =
    create_transaction_outcome whole_exact (memory_lawful false) opening answered
      default_transfer_config opening-IsSolvent format_int decoded (some thirty) fresh refl
      (start false) refl

failures_answered : IsFailure (service_answer (plain "disk full"))
failures_answered = service_answer-IsFailure (plain "disk full")

internal_cause_hidden :
    service_answer
      (wrap_error code_database_error "failed to create account" (some (plain "disk full")))
    ≡ (if errors_is (plain "disk full") canceled
        then (400, "request_cancelled", "Request was cancelled")
        else if errors_is (plain "disk full") deadline_exceeded
        then (504, "timeout", "Request timed out")
        else unexpected)
internal_cause_hidden =
    service_answer-wrap_error code_database_error "failed to create account" (plain "disk full")
      (inl refl)

plain_no_domain : as_domain (plain "disk full") ≡ none
unfolding as_domain
plain_no_domain = refl

disk_full_unexpected : plain_answer (plain "disk full") ≡ (
    if errors_is (plain "disk full") eof
    then (400, "invalid_json", "Request body is empty")
    else unexpected)
disk_full_unexpected = plain_answer_dead (plain "disk full") plain_no_domain

get_account-Answered_example :
    Answered whole_exact
      (memory_lawful false)
      opening
      fresh
      refl
      "1"
      (start false)
      (Account.get_account (memory false) "1" fresh (start false))
unfolding memory_lawful
get_account-Answered_example =
    get_account-Answered whole_exact (memory_lawful false) opening fresh refl "1" (start false) refl

abbrev opened : Writer × World
opened = Account.create_account (memory false) decoded none fresh (start false)

create_account_opens_example :
    Opened whole_exact (memory_lawful false) opening fresh refl decoded none opened
    ⊎ NotOpened whole_exact
        (memory_lawful false)
        opening
        fresh
        refl
        decoded
        none
        (start false)
        opened
unfolding memory_lawful
create_account_opens_example =
    create_account_opens whole_exact (memory_lawful false) opening fresh refl decoded none
      (start false) refl

new_account-IsInt64 :
    (req : CreateAccountRequest)
    → decode_json_body decoded decoded.decode_account none ≡ ok req
    → IsInt64 req.account_id
unfolding decode_json_body
new_account-IsInt64 req h = subst IsInt64 (ap account_id_of h) (omega arith, omega arith)
  where
    account_id_of : Result Error CreateAccountRequest → ℤ
    account_id_of (ok r) = r.account_id
    account_id_of (err e) = pos 0

opened-told : opened.0.status ≡ some 201
unfolding Account.create_account decode_json_body validate_create_account parse_int parse_codes
    codes parse_magnitude parse_digits Service.create_account parse_money write_success write_json
opened-told = refl

create_account-get_account_example :
    (req : CreateAccountRequest) × (balance : ℤ) × (decode_json_body decoded decoded.decode_account
        none
      ≡ ok req)
    × (parse_money whole_decimals req.initial_balance ≡ ok balance)
    × ShowsBalance whole_exact
        (memory_lawful false)
        (λ e. (calm e).0)
        req.account_id
        balance
        fresh
        (Account.get_account (memory false) (format_int req.account_id) fresh opened.1).0
unfolding memory_lawful
create_account-get_account_example =
    create_account-get_account whole_exact (memory_lawful false) (λ e. (calm e).0) decoded none
      new_account-IsInt64 fresh fresh refl refl (start false) opened-told
