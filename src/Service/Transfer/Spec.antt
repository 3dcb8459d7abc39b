-- ===== src/Service/Transfer/Spec.antt =====
-- What a transfer means: the specification that the attempts and the retry loop are held to.
use internal_transfers_syste.Base.{◌≡◌, ◌⊎◌, true, false, none, some, String}
use internal_transfers_syste.Base.Int.{ℤ}
use internal_transfers_syste.Models.{
  Error, domain_cause, err_account_not_found, err_insufficient_balance, code_database_error,
  DecimalLib, Exact, Transaction,
}
use internal_transfers_syste.Interfaces.{Backend}
use internal_transfers_syste.Interfaces.Ledger.{Ledger, set_balance, add_entry}
use internal_transfers_syste.Interfaces.Contract.{entry_of, IsLawful}

module _ {D : DecimalLib} (X : Exact D) where
  open X use {Quantity, value, origin, plus, lt}

  -- No account of the ledger is below zero.
  abbrev pub IsSolvent : Ledger Quantity → Type 0
  IsSolvent L = (i : ℤ) (q : Quantity) → L.balances i ≡ some q → lt q origin ≡ false

  -- The ledger `M` is `L` after the transfer that `t` records: the source has paid the amount out
  -- of what it held, the destination has it, and the record is the newest.
  pub record Moved (L M : Ledger Quantity) (t : Transaction D) : Type 0 where
    pub before : Quantity
    pub after : Quantity
    pub other : Quantity
    pub held : L.balances t.source_account_id ≡ some before
    pub known : L.balances t.destination_account_id ≡ some other
    pub paid : plus after (value t.amount) ≡ before
    pub covered : lt after origin ≡ false
    pub result :
        M
        ≡ add_entry (entry_of X t) (
            set_balance t.destination_account_id
              (plus other (value t.amount))
              (set_balance t.source_account_id after L))

  -- A transfer that the ledger does not allow, with the error that says so.
  abbrev pub Refused : Ledger Quantity → ℤ → ℤ → D.Decimal → Error → Type 0
  Refused L s d amount e =
      ((L.balances s ≡ none) × (e ≡ err_account_not_found))
      ⊎ ((L.balances d ≡ none) × (e ≡ err_account_not_found))
      ⊎ ((q : Quantity) × (o : Quantity) × (L.balances s ≡ some q)
          × (L.balances d ≡ some o)
          × (lt q (value amount) ≡ true)
          × (e ≡ err_insufficient_balance))

  -- An error of the environment, as it is or under a database error.
  abbrev pub Raised : (Error → Type 0) → Error → Type 0
  Raised Fault e =
      Fault e ⊎ ((m : String) × (f : Error) × Fault f × (e ≡ domain_cause code_database_error m f))

  -- The transfer that was asked for took effect.
  abbrev pub Done : Ledger Quantity → ℤ → ℤ → D.Decimal → Transaction D → Ledger Quantity → Type 0
  Done L s d amount t M =
      Moved L M t × (t.source_account_id ≡ s) × (t.destination_account_id ≡ d) × (t.amount ≡ amount)

  module _ {B : Backend D} (law : IsLawful X B) (L : Ledger Quantity) (s d : ℤ)
      (amount : D.Decimal) where
    open law use {Fault, Lost, committed, pending}

    -- How an attempt fails, by the ledger `M` that it leaves: nothing has changed, and the error says
    -- why; or the answer to the commit was lost, and the transfer is done all the same.
    abbrev pub Failure : Error → Ledger Quantity → Type 0
    Failure e M =
        ((M ≡ L) × (Refused L s d amount e ⊎ Raised Fault e))
        ⊎ ((t : Transaction D) × Done L s d amount t M
            × (f : Error) × Lost f
            × (e ≡ domain_cause code_database_error "failed to commit transaction" f))
