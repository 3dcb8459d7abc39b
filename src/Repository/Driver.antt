-- ===== src/Repository/Driver.antt =====
-- The statements of the two repositories, each with its arguments, and the driver that runs them.
pub mod Contract
use internal_transfers_syste.Base.{ℕ, Bool, Option, List}
use internal_transfers_syste.Base.Int.{ℤ}
use internal_transfers_syste.Base.Action.{Result, Action}
use internal_transfers_syste.Models.{Error, DecimalLib, Account, Transaction, Time}

-- A statement that returns at most one row: the texts of `Create`, `GetByID`, `GetByIDForUpdate`
-- and `Exists` of the accounts, and of `Create` and `GetByID` of the transactions.
pub data RowQuery (D : DecimalLib) : Type 0 where
  insert_account : ℤ → D.Decimal → RowQuery D
  select_account : ℤ → RowQuery D
  select_account_for_update : ℤ → RowQuery D
  account_exists : ℤ → RowQuery D
  insert_transaction : ℤ → ℤ → D.Decimal → RowQuery D
  select_transaction : ℤ → RowQuery D

-- The columns that the row is scanned into.
abbrev pub Row : {D : DecimalLib} → RowQuery D → Type 0
Row (insert_account _ _) = Time × Time
Row {D} (select_account _) = Account D
Row {D} (select_account_for_update _) = Account D
Row (account_exists _) = Bool
Row (insert_transaction _ _ _) = ℤ × Time
Row {D} (select_transaction _) = Transaction D

-- `pgx.ReadCommitted` and its kin, `pgx.ReadWrite` and its kin.
pub data IsoLevel : Type 0 where
  read_committed repeatable_read serializable : IsoLevel

pub data AccessMode : Type 0 where
  read_write read_only : AccessMode

pub record TxOptions : Type 0 where
  pub iso_level : IsoLevel
  pub access_mode : AccessMode

-- `pgx.Rows`: what each `Scan` after a `Next` gives, and `Err()` at the end.
pub record Rows (D : DecimalLib) : Type 0 where
  pub scans : List (Result Error (Transaction D))
  pub failure : Option Error

pub record Pgx (D : DecimalLib) : Type 1 where
  pub World : Type 0
  pub Tx : Type 0
  -- `QueryRow` and `Scan`, on the pool and in a transaction
  pub query_row : (q : RowQuery D) → Action World Error (Row q)
  pub tx_query_row : Tx → (q : RowQuery D) → Action World Error (Row q)
  -- `UPDATE accounts SET balance = $1, updated_at = NOW() WHERE account_id = $2`, and the number of
  -- rows that it wrote
  pub tx_update_balance : Tx → D.Decimal → ℤ → Action World Error ℕ
  -- the transactions of an account, newest first, with limit and offset
  pub query_transactions : ℤ → ℤ → ℤ → Action World Error (Rows D)
  pub begin_tx : TxOptions → Action World Error Tx
  pub commit : Tx → Action World Error (Unit {0})
  pub rollback : Tx → Action World Error (Unit {0})
  pub wait : ℤ → World → Option Error × World
