-- ===== src/Repository/Driver/Contract.antt =====
-- What the repositories rely on, statement by statement, as PostgreSQL, the schema in
-- internal/db/migrations and the documentation of pgx give it.
use internal_transfers_syste.Base.{◌≡◌, ◌≢◌, ◌⊎◌, true, false, none, some}
use internal_transfers_syste.Base.Int.{ℤ}
use internal_transfers_syste.Base.Action.{Triple}
use internal_transfers_syste.Models.{Error, no_rows, errors_is, DecimalLib, Exact, Account, Time}
use internal_transfers_syste.Interfaces.Ledger.{Ledger, set_balance, add_entry}
use internal_transfers_syste.Interfaces.Contract.{Unanswered}
use internal_transfers_syste.Repository.Driver.{
  Pgx, insert_account, select_account, select_account_for_update, account_exists,
  insert_transaction, TxOptions, read_write,
}

module _ {D : DecimalLib} (X : Exact D) where
  open X use {Quantity, value, origin, lt}

  pub record IsLawfulDriver (P : Pgx D) : Type 1 where
    -- errors of the environment, errors that leave open whether the statement took effect, and
    -- violations of a key
    pub Fault : Error → Type 0
    pub Lost : Error → Type 0
    pub Duplicate : Error → Type 0
    -- `pgx.ErrNoRows` says one thing only
    pub Fault-no_rows : (e : Error) → Fault e → errors_is e no_rows ≡ false
    pub committed : P.World → Ledger Quantity
    pub pending : P.Tx → P.World → Ledger Quantity
    pub insert_account-Triple :
        (L : Ledger Quantity) (i : ℤ) (d : D.Decimal)
        → Triple
            (λ w. committed w ≡ L)
            (P.query_row (insert_account i d))
            (λ _ w. (committed w ≡ set_balance i (value d) L) × (L.balances i ≡ none))
            (λ e w.
              ((committed w ≡ L) × (L.balances i ≢ none) × Duplicate e)
              ⊎ ((committed w ≡ L) × (lt (value d) origin ≡ true))
              ⊎ Unanswered X Fault Lost
                  (committed w ≡ L)
                  (committed w ≡ set_balance i (value d) L)
                  e)
    pub select_account-Triple :
        (L : Ledger Quantity) (i : ℤ)
        → Triple
            (λ w. committed w ≡ L)
            (P.query_row (select_account i))
            (λ (a : Account D) w.
              (committed w ≡ L) × (a.account_id ≡ i) × (L.balances i ≡ some (value a.balance)))
            (λ e w. (committed w ≡ L) × (((L.balances i ≡ none) × (e ≡ no_rows)) ⊎ Fault e))
    pub account_exists-Triple :
        (L : Ledger Quantity) (i : ℤ)
        → Triple
            (λ w. committed w ≡ L)
            (P.query_row (account_exists i))
            (λ there w.
              (committed w ≡ L)
              × (((there ≡ true) × (L.balances i ≢ none))
                  ⊎ ((there ≡ false) × (L.balances i ≡ none))))
            (λ e w. (committed w ≡ L) × Fault e)
    pub begin_tx-Triple :
        (L : Ledger Quantity) (options : TxOptions)
        → options.access_mode ≡ read_write
        → Triple
            (λ w. committed w ≡ L)
            (P.begin_tx options)
            (λ tx w. (committed w ≡ L) × (pending tx w ≡ L))
            (λ e w. (committed w ≡ L) × Fault e)
    pub select_account_for_update-Triple :
        (L M : Ledger Quantity) (tx : P.Tx) (i : ℤ)
        → Triple
            (λ w. (committed w ≡ L) × (pending tx w ≡ M))
            (P.tx_query_row tx (select_account_for_update i))
            (λ (a : Account D) w.
              (committed w ≡ L)
              × (pending tx w ≡ M)
              × (a.account_id ≡ i)
              × (M.balances i ≡ some (value a.balance)))
            (λ e w. (committed w ≡ L) × (((M.balances i ≡ none) × (e ≡ no_rows)) ⊎ Fault e))
    -- The key is primary: a row is written where there is one, and none otherwise.
    pub tx_update_balance-Triple :
        (L M : Ledger Quantity) (tx : P.Tx) (i : ℤ) (d : D.Decimal)
        → Triple
            (λ w. (committed w ≡ L) × (pending tx w ≡ M))
            (P.tx_update_balance tx d i)
            (λ rows w.
              (committed w ≡ L)
              × (((rows ≡ 1) × (pending tx w ≡ set_balance i (value d) M))
                  ⊎ ((rows ≡ 0) × (M.balances i ≡ none))))
            (λ e w. (committed w ≡ L) × ((lt (value d) origin ≡ true) ⊎ Fault e))
    pub insert_transaction-Triple :
        (L M : Ledger Quantity) (tx : P.Tx) (s d : ℤ) (amount : D.Decimal)
        → Triple
            (λ w. (committed w ≡ L) × (pending tx w ≡ M))
            (P.tx_query_row tx (insert_transaction s d amount))
            (λ (inserted : ℤ × Time) w.
              (committed w ≡ L)
              × (pending tx w
                  ≡ add_entry
                      (record {
                        id = inserted.0;
                        source = s;
                        destination = d;
                        amount = value amount;
                      })
                      M))
            (λ e w.
              (committed w ≡ L)
              × ((M.balances s ≡ none)
                  ⊎ (M.balances d ≡ none)
                  ⊎ (lt origin (value amount) ≡ false)
                  ⊎ (s ≡ d)
                  ⊎ Fault e))
    pub commit-Triple :
        (L M : Ledger Quantity) (tx : P.Tx)
        → Triple
            (λ w. (committed w ≡ L) × (pending tx w ≡ M))
            (P.commit tx)
            (λ _ w. committed w ≡ M)
            (λ e w. Unanswered X Fault Lost (committed w ≡ L) (committed w ≡ M) e)
    pub rollback-Triple :
        (L : Ledger Quantity) (tx : P.Tx)
        → Triple
            (λ w. committed w ≡ L)
            (P.rollback tx)
            (λ _ w. committed w ≡ L)
            (λ _ w. committed w ≡ L)
    pub wait_lem : (delay : ℤ) (w : P.World) → committed (P.wait delay w).1 ≡ committed w
    pub wait-Fault : (delay : ℤ) (w : P.World) {e : Error} → (P.wait delay w).0 ≡ some e → Fault e
