-- ===== src/Service/Transfer.antt =====
-- internal/service/transfer_service.go. The log calls are left out.
pub mod Backoff
pub mod Spec
pub mod Attempt
pub mod Retry
pub mod Success
pub mod Repeat
pub mod Conservation
pub mod Books
pub mod Page
use mathlib.Core.Bool.{not}
use internal_transfers_syste.Base.{
  ℕ, zero, suc, ◌+◌, ◌^◌, Bool, Option, none, some, List, String, if◌then◌else◌,
}
use internal_transfers_syste.Base.Int.{
  ℤ, pos, negsuc, pos_part, ◌+ℤ◌, ◌*ℤ◌, ltb_ℤ, leb_ℤ, ◌==ℤ◌, wrap64,
}
use internal_transfers_syste.Base.Action.{
  Result, ok, err, Action, pure, raise, map_error, ◌>>=◌, ◌>>◌,
}
use internal_transfers_syste.Models.{
  Error, canceled, wrap_error, is_retryable, err_same_account, err_invalid_amount,
  err_insufficient_balance, code_database_error, code_transaction_failed, DecimalLib, parse_money,
  Account, Transaction, CreateTransactionRequest, zero_time,
}
use internal_transfers_syste.Interfaces.{Backend}

-- `struct TransferServiceConfig`; durations are in nanoseconds.
pub record TransferServiceConfig : Type 0 where
  pub max_retries : ℤ
  pub retry_base_delay : ℤ

abbrev pub default_transfer_config : TransferServiceConfig
default_transfer_config = record { max_retries = pos 3; retry_base_delay = pos 100_000_000 }

-- `RetryBaseDelay * time.Duration(1<<uint(attempt-1))` in 64 bits, at `attempt = suc k`.
unfoldable pub retry_delay : TransferServiceConfig → ℕ → ℤ
retry_delay config k = wrap64 (config.retry_base_delay *ℤ wrap64 (pos (2 ^ k)))

-- The rounds of `for attempt := 0; attempt <= MaxRetries; attempt++`.
abbrev pub rounds : TransferServiceConfig → ℕ
rounds config = pos_part (config.max_retries +ℤ pos 1)

-- `if err != nil { return nil, models.WrapError(models.CodeDatabaseError, message, err) }`
abbrev pub or_database_error : {W A : Type 0} → String → Action W Error A → Action W Error A
or_database_error message = map_error (λ e. wrap_error code_database_error message (some e))

-- The two locked accounts as source and destination.
abbrev pub source_of : {D : DecimalLib} → ℤ → ℤ → Account D → Account D → Account D
source_of first_id source_id first second = if first_id ==ℤ source_id then first else second

abbrev pub destination_of : {D : DecimalLib} → ℤ → ℤ → Account D → Account D → Account D
destination_of first_id source_id first second = if first_id ==ℤ source_id then second else first

-- The record before the database has filled in its id and time.
abbrev pub new_transaction : {D : DecimalLib} → ℤ → ℤ → D.Decimal → Transaction D
new_transaction source_id dest_id amount = record {
  transaction_id = pos 0;
  source_account_id = source_id;
  destination_account_id = dest_id;
  amount = amount;
  created_at = zero_time;
}

module _ {D : DecimalLib} (B : Backend D) where
  open B use {World, Tx}

  -- From the check of the balance to the commit.
  unfoldable pub move_money :
      Tx → ℤ → ℤ → D.Decimal → Account D → Account D → Action World Error (Transaction D)
  move_money tx source_id dest_id amount source dest =
      if D.less_than source.balance amount then raise err_insufficient_balance else do
        or_database_error "failed to update source balance"
            (B.accounts.update_balance tx source.account_id (D.sub source.balance amount))
        or_database_error "failed to update destination balance"
            (B.accounts.update_balance tx dest.account_id (D.add dest.balance amount))
        t ←
            or_database_error "failed to create transaction record"
              (B.transactions.create tx (new_transaction source_id dest_id amount))
        or_database_error "failed to commit transaction" (B.commit tx)
        pure t

  -- The body of `executeTransfer` after `BeginTx`, with the lower account locked first.
  unfoldable pub in_transaction : Tx → ℤ → ℤ → D.Decimal → Action World Error (Transaction D)
  unfolding move_money
  in_transaction tx source_id dest_id amount =
      let first_id = if ltb_ℤ dest_id source_id then dest_id else source_id in
      let second_id = if ltb_ℤ dest_id source_id then source_id else dest_id in
      do
        first ← B.accounts.get_by_id_for_update tx first_id
        second ← B.accounts.get_by_id_for_update tx second_id
        move_money tx source_id dest_id amount (source_of first_id source_id first second)
            (destination_of first_id source_id first second)

  -- The deferred `tx.Rollback`: its error is logged at most.
  abbrev pub deferring_rollback : {A : Type 0} → Tx → Action World Error A → Action World Error A
  deferring_rollback tx m w = let (r, w') = m w in (r, (B.rollback tx w').1)

  unfoldable pub execute_transfer : ℤ → ℤ → D.Decimal → Action World Error (Transaction D)
  unfolding in_transaction
  execute_transfer source_id dest_id amount = do
    tx ← or_database_error "failed to begin transaction" B.accounts.begin_tx
    deferring_rollback tx (in_transaction tx source_id dest_id amount)

  module _ (config : TransferServiceConfig) where
    -- The pause before round `attempt`: none before the first.
    unfoldable pub pause : ℕ → World → Option Error × World
    pause zero w = (none, w)
    pause (suc k) w = B.wait (retry_delay config k) w

    -- What follows the `select`: the round, or `return nil, ctx.Err()`.
    abbrev pub resume :
        Action World Error (Transaction D)
        → Option Error × World
        → Result Error (Transaction D) × World
    resume round (none, w) = round w
    resume round (some e, w) = (err e, w)

    -- What follows the attempt: `return`, on success and on an error that is not transient, or the
    -- next round, which is told the error.
    abbrev pub settle :
        (Error → Action World Error (Transaction D))
        → Result Error (Transaction D) × World
        → Result Error (Transaction D) × World
    settle again (ok t, w) = (ok t, w)
    settle again (err e, w) =
        let rest = again e w in if is_retryable (some e) then rest else (err e, w)

    -- The retry loop, with `left` rounds to go at round `attempt`.
    unfoldable pub retry_loop :
        ℕ → ℕ → Option Error → ℤ → ℤ → D.Decimal → Action World Error (Transaction D)
    retry_loop zero attempt last_err source_id dest_id amount w =
        (err (wrap_error code_transaction_failed "transfer failed after retries" last_err), w)
    retry_loop (suc left) attempt last_err source_id dest_id amount w =
        resume
          (λ w₁.
            settle (λ e. retry_loop left (suc attempt) (some e) source_id dest_id amount)
              (execute_transfer source_id dest_id amount w₁))
          (pause attempt w)

    unfoldable pub transfer : CreateTransactionRequest → Action World Error (Transaction D)
    transfer req w =
        if req.source_account_id ==ℤ req.destination_account_id
        then (err err_same_account, w)
        else elim (parse_money D req.amount) [
          | err e ↦ (err err_invalid_amount, w)
          | ok amount ↦
              if D.less_than_or_equal amount D.zero
              then (err err_invalid_amount, w)
              else retry_loop (rounds config) 0 none req.source_account_id
                  req.destination_account_id amount w
        ]

  unfoldable pub get_transaction : ℤ → Action World Error (Transaction D)
  get_transaction transaction_id = B.transactions.get_by_id transaction_id

abbrev pub default_page_size : ℤ
default_page_size = pos 20

abbrev pub max_page_size : ℤ
max_page_size = pos 100

-- The three guards of `GetAccountTransactions`, in their order.
unfoldable pub page_limit : ℤ → ℤ
page_limit limit =
    let positive = if leb_ℤ limit (pos 0) then default_page_size else limit in
    if ltb_ℤ max_page_size positive then max_page_size else positive

unfoldable pub page_offset : ℤ → ℤ
page_offset offset = if ltb_ℤ offset (pos 0) then pos 0 else offset

module _ {D : DecimalLib} (B : Backend D) where
  unfoldable pub get_account_transactions : ℤ → ℤ → ℤ → Action B.World Error (List (Transaction D))
  get_account_transactions account_id limit offset =
      B.transactions.get_by_account_id account_id (page_limit limit) (page_offset offset)
