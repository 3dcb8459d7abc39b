-- ===== src/Models/Entities.antt =====
-- internal/models/account.go, transaction.go and dto.go. An `int64` is an integer; a `time.Time` is
-- the instant that it names, as an integer.
use internal_transfers_syste.Base.{String}
use internal_transfers_syste.Base.Int.{ℤ, pos}
use internal_transfers_syste.Models.Money.{DecimalLib}

abbrev pub Time : Type 0
Time = ℤ

-- The zero value of `time.Time`.
abbrev pub zero_time : Time
zero_time = pos 0

module _ (D : DecimalLib) where
  pub record Account : Type 0 where
    pub account_id : ℤ
    pub balance : D.Decimal
    pub created_at : Time
    pub updated_at : Time

  pub record Transaction : Type 0 where
    pub transaction_id : ℤ
    pub source_account_id : ℤ
    pub destination_account_id : ℤ
    pub amount : D.Decimal
    pub created_at : Time

pub record CreateAccountRequest : Type 0 where
  pub account_id : ℤ
  pub initial_balance : String

pub record GetAccountResponse : Type 0 where
  pub account_id : ℤ
  pub balance : String

pub record CreateTransactionRequest : Type 0 where
  pub source_account_id : ℤ
  pub destination_account_id : ℤ
  pub amount : String
