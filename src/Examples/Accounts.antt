-- ===== src/Examples/Accounts.antt =====
-- The ledger, the configurations and the requests that the examples run with.
use internal_transfers_syste.Base.{◌≡◌, refl, ◌≢◌, Bool, false, none, [], arith}
use internal_transfers_syste.Base.Int.{ℤ, pos}
use internal_transfers_syste.Base.Action.{ok}
use internal_transfers_syste.Base.Text.{codes}
use internal_transfers_syste.Models.{
  Error, parse_money, CreateAccountRequest, CreateTransactionRequest,
}
use internal_transfers_syste.Handler.Request.{parse_int, parse_codes, parse_magnitude, parse_digits}
use internal_transfers_syste.Interfaces.Ledger.{Ledger, set_balance}
use internal_transfers_syste.Service.Transfer.Spec.{IsSolvent}
use internal_transfers_syste.Examples.Whole.{whole_decimals, whole_exact}
use internal_transfers_syste.Examples.Memory.{World, memory_lawful}

-- Account 1 has 100, account 2 has 50.
abbrev pub opening : Ledger ℤ
opening =
    set_balance (pos 1) (pos 100)
      (set_balance (pos 2) (pos 50) (record { balances = λ i. none; entries = [] }))

pub opening-IsSolvent : IsSolvent whole_exact opening
opening-IsSolvent i q h = ground arith

abbrev pub start : Bool → World
start losing = record { stored = opening; working = opening; losing = losing }

abbrev pub thirty : CreateTransactionRequest
thirty = record { source_account_id = pos 1; destination_account_id = pos 2; amount = "30" }

-- More than account 1 has.
abbrev pub thousand : CreateTransactionRequest
thousand = record { source_account_id = pos 1; destination_account_id = pos 2; amount = "1000" }

abbrev pub new_account : CreateAccountRequest
new_account = record { account_id = pos 3; initial_balance = "25" }

pub thirty_parsed : parse_money whole_decimals "30" ≡ ok (pos 30)
unfolding parse_money parse_int parse_codes parse_magnitude parse_digits codes
thirty_parsed = refl

pub thousand_parsed : parse_money whole_decimals "1000" ≡ ok (pos 1000)
unfolding parse_money parse_int parse_codes parse_magnitude parse_digits codes
thousand_parsed = refl

pub apart : pos 1 ≢ pos 2
apart h = cc

-- The reliable backend raises no error of its own, and loses no answer.
pub calm : (e : Error) → ¬ ((memory_lawful false).Fault e) × ¬ ((memory_lawful false).Lost e)
unfolding memory_lawful
calm e = (λ h. h, λ h. cc)

pub answered : (e : Error) → ¬ ((memory_lawful false).Lost e)
answered e = (calm e).1
