-- ===== src/Interfaces.antt =====
-- Package `interfaces` (internal/interfaces): what the services take of the data access layer, over
-- an unknown world (the database, the network, the clock) that each call may change. The methods
-- `Commit` and `Rollback` are those of `pgx.Tx`; `wait` is the `select` of the retry loop.
pub mod Ledger
pub mod Contract
use internal_transfers_syste.Base.{Bool, Option, List}
use internal_transfers_syste.Base.Int.{ℤ}
use internal_transfers_syste.Base.Action.{Action}
use internal_transfers_syste.Models.{Error, DecimalLib, Account, Transaction}

module _ (D : DecimalLib) (World Tx : Type 0) where
  -- `interface AccountRepository`. `create` returns the account with the times filled in.
  pub record AccountRepository : Type 0 where
    pub create : Account D → Action World Error (Account D)
    pub get_by_id : ℤ → Action World Error (Account D)
    pub get_by_id_for_update : Tx → ℤ → Action World Error (Account D)
    pub update_balance : Tx → ℤ → D.Decimal → Action World Error (Unit {0})
    pub exists : ℤ → Action World Error Bool
    pub begin_tx : Action World Error Tx

  -- `interface TransactionRepository`. `create` returns the record with id and time filled in.
  pub record TransactionRepository : Type 0 where
    pub create : Tx → Transaction D → Action World Error (Transaction D)
    pub get_by_id : ℤ → Action World Error (Transaction D)
    pub get_by_account_id : ℤ → ℤ → ℤ → Action World Error (List (Transaction D))

pub record Backend (D : DecimalLib) : Type 1 where
  pub World : Type 0
  pub Tx : Type 0
  pub accounts : AccountRepository D World Tx
  pub transactions : TransactionRepository D World Tx
  pub commit : Tx → Action World Error (Unit {0})
  pub rollback : Tx → Action World Error (Unit {0})
  -- `none` after `time.After(delay)`, and `ctx.Err()` after `ctx.Done()`
  pub wait : ℤ → World → Option Error × World
