-- ===== src/Service/Session.antt =====
-- `executeTransfer` of internal/service/transfer_service.go as the calls that it makes one at a time, so
-- that the calls of several sessions can be interleaved: the point that a session has reached, and
-- what follows each answer.
pub mod Rank
pub mod Run
use internal_transfers_syste.Base.{ℕ, zero, suc, Option, some, String, if◌then◌else◌}
use internal_transfers_syste.Base.Int.{ℤ, ltb_ℤ}
use internal_transfers_syste.Base.Action.{Result, ok, err}
use internal_transfers_syste.Models.{
  Error, wrap_error, err_insufficient_balance, code_database_error, DecimalLib, Account,
  Transaction,
}
use internal_transfers_syste.Interfaces.{Backend}
use internal_transfers_syste.Service.Transfer.{source_of, destination_of, new_transaction}

-- The arguments of `executeTransfer`.
pub record Order (D : DecimalLib) : Type 0 where
  pub source_id : ℤ
  pub dest_id : ℤ
  pub amount : D.Decimal

-- The next call, with what the calls before it have found.
pub data Pc (D : DecimalLib) (Tx : Type 0) : Type 0 where
  beginning : Pc D Tx
  locking_first : Tx → Pc D Tx
  locking_second : Tx → Account D → Pc D Tx
  debiting : Tx → Account D → Account D → Pc D Tx
  crediting : Tx → Account D → Pc D Tx
  recording : Tx → Pc D Tx
  committing : Tx → Transaction D → Pc D Tx
  rolling_back : Tx → Result Error (Transaction D) → Pc D Tx
  returned : Result Error (Transaction D) → Pc D Tx

-- The calls that are left, at most.
abbrev pub rank : {D : DecimalLib} {Tx : Type 0} → Pc D Tx → ℕ
rank beginning = 8
rank (locking_first _) = 7
rank (locking_second _ _) = 6
rank (debiting _ _ _) = 5
rank (crediting _ _) = 4
rank (recording _) = 3
rank (committing _ _) = 2
rank (rolling_back _ _) = 1
rank (returned _) = 0

module _ {D : DecimalLib} (order : Order D) where
  open order use {source_id, dest_id, amount}

  abbrev pub first_id : ℤ
  first_id = if ltb_ℤ dest_id source_id then dest_id else source_id

  abbrev pub second_id : ℤ
  second_id = if ltb_ℤ dest_id source_id then source_id else dest_id

  module _ {Tx : Type 0} where
    -- `return nil, err`, through the deferred rollback, with the database error around it
    abbrev pub fail : Tx → String → Error → Pc D Tx
    fail tx message e = rolling_back tx (err (wrap_error code_database_error message (some e)))

    abbrev pub after_begin : Result Error Tx → Pc D Tx
    after_begin (ok tx) = locking_first tx
    after_begin (err e) =
        returned (err (wrap_error code_database_error "failed to begin transaction" (some e)))

    abbrev pub after_first : Tx → Result Error (Account D) → Pc D Tx
    after_first tx (ok first) = locking_second tx first
    after_first tx (err e) = rolling_back tx (err e)

    -- The check of the balance.
    abbrev pub checked : Tx → Account D → Account D → Pc D Tx
    checked tx source dest =
        if D.less_than source.balance amount
        then rolling_back tx (err err_insufficient_balance)
        else debiting tx source dest

    abbrev pub after_second : Tx → Account D → Result Error (Account D) → Pc D Tx
    after_second tx first (ok second) =
        checked tx (source_of first_id source_id first second)
          (destination_of first_id source_id first second)
    after_second tx first (err e) = rolling_back tx (err e)

    abbrev pub after_debit : Tx → Account D → Result Error (Unit {0}) → Pc D Tx
    after_debit tx dest (ok _) = crediting tx dest
    after_debit tx dest (err e) = fail tx "failed to update source balance" e

    abbrev pub after_credit : Tx → Result Error (Unit {0}) → Pc D Tx
    after_credit tx (ok _) = recording tx
    after_credit tx (err e) = fail tx "failed to update destination balance" e

    abbrev pub after_record : Tx → Result Error (Transaction D) → Pc D Tx
    after_record tx (ok t) = committing tx t
    after_record tx (err e) = fail tx "failed to create transaction record" e

    abbrev pub after_commit : Tx → Transaction D → Result Error (Unit {0}) → Pc D Tx
    after_commit tx t (ok _) = rolling_back tx (ok t)
    after_commit tx t (err e) = fail tx "failed to commit transaction" e

-- One call, over a backend.
abbrev pub answer : {A W P : Type 0} → (Result Error A → P) → Result Error A × W → P × W
answer after (r, w) = (after r, w)

module _ {D : DecimalLib} (B : Backend D) (order : Order D) where
  open B use {World, Tx}

  unfoldable pub call : Pc D Tx → World → Pc D Tx × World
  call beginning w = answer (after_begin order) (B.accounts.begin_tx w)
  call (locking_first tx) w =
      answer (after_first order tx) (B.accounts.get_by_id_for_update tx (first_id order) w)
  call (locking_second tx first) w =
      answer (after_second order tx first) (B.accounts.get_by_id_for_update tx (second_id order) w)
  call (debiting tx source dest) w =
      answer (after_debit order tx dest)
        (B.accounts.update_balance tx source.account_id (D.sub source.balance order.amount) w)
  call (crediting tx dest) w =
      answer (after_credit order tx)
        (B.accounts.update_balance tx dest.account_id (D.add dest.balance order.amount) w)
  call (recording tx) w =
      answer (after_record order tx)
        (B.transactions.create tx (new_transaction order.source_id order.dest_id order.amount) w)
  call (committing tx t) w = answer (after_commit order tx t) (B.commit tx w)
  call (rolling_back tx r) w = (returned r, (B.rollback tx w).1)
  call (returned r) w = (returned r, w)

  unfoldable pub calls : ℕ → Pc D Tx → World → Pc D Tx × World
  calls zero p w = (p, w)
  calls (suc n) p w = let (p', w') = call p w in calls n p' w'
