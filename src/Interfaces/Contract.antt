-- ===== src/Interfaces/Contract.antt =====
-- What the services rely on, as the comments of the two interfaces, of pgx and of the schema in
-- internal/db/migrations state it: each call's effect on the ledger that is committed and on the
-- one that an open transaction would commit, for a program with the database to itself.
use internal_transfers_syste.Base.{◌≡◌, ◌≢◌, ◌⊎◌, true, false, none, some}
use internal_transfers_syste.Base.Int.{ℤ}
use internal_transfers_syste.Base.Action.{Triple}
use internal_transfers_syste.Models.{
  Error, err_account_not_found, DecimalLib, Exact, Account, Transaction,
}
use internal_transfers_syste.Interfaces.{Backend}
use internal_transfers_syste.Interfaces.Ledger.{Entry, Ledger, set_balance, add_entry}

module _ {D : DecimalLib} (X : Exact D) where
  open X use {Quantity, value, origin, lt}

  -- The record of a transfer as the specification sees it.
  abbrev pub entry_of : Transaction D → Entry Quantity
  entry_of t = record {
    id = t.transaction_id;
    source = t.source_account_id;
    destination = t.destination_account_id;
    amount = value t.amount;
  }

  -- A failed call: the ledger is as it was and the error is one of the environment's, or the
  -- answer was lost after the call took effect.
  abbrev pub Unanswered : (Error → Type 0) → (Error → Type 0) → Type 0 → Type 0 → Error → Type 0
  Unanswered Fault Lost Before After e = (Before × Fault e) ⊎ (After × Lost e)

  pub record IsLawful (B : Backend D) : Type 1 where
    -- the errors that the environment may raise at any call, and those after which it is not known
    -- whether the call took effect
    pub Fault : Error → Type 0
    pub Lost : Error → Type 0
    -- the texts by which the driver reports a key that is there already
    pub Duplicate : Error → Type 0
    pub committed : B.World → Ledger Quantity
    pub pending : B.Tx → B.World → Ledger Quantity
    pub create-Triple :
        (L : Ledger Quantity) (a : Account D)
        → Triple
            (λ w. committed w ≡ L)
            (B.accounts.create a)
            (λ b w.
              (committed w ≡ set_balance a.account_id (value a.balance) L)
              × (L.balances a.account_id ≡ none)
              × (b.account_id ≡ a.account_id)
              × (b.balance ≡ a.balance))
            (λ e w.
              ((committed w ≡ L) × (L.balances a.account_id ≢ none) × Duplicate e)
              ⊎ ((committed w ≡ L) × (lt (value a.balance) origin ≡ true))
              ⊎ Unanswered Fault Lost
                  (committed w ≡ L)
                  (committed w ≡ set_balance a.account_id (value a.balance) L)
                  e)
    pub get_by_id-Triple :
        (L : Ledger Quantity) (i : ℤ)
        → Triple
            (λ w. committed w ≡ L)
            (B.accounts.get_by_id i)
            (λ a w.
              (committed w ≡ L) × (a.account_id ≡ i) × (L.balances i ≡ some (value a.balance)))
            (λ e w.
              (committed w ≡ L) × (((L.balances i ≡ none) × (e ≡ err_account_not_found)) ⊎ Fault e))
    pub exists-Triple :
        (L : Ledger Quantity) (i : ℤ)
        → Triple
            (λ w. committed w ≡ L)
            (B.accounts.exists i)
            (λ there w.
              (committed w ≡ L)
              × (((there ≡ true) × (L.balances i ≢ none))
                  ⊎ ((there ≡ false) × (L.balances i ≡ none))))
            (λ e w. (committed w ≡ L) × Fault e)
    pub begin_tx-Triple :
        (L : Ledger Quantity)
        → Triple
            (λ w. committed w ≡ L)
            B.accounts.begin_tx
            (λ tx w. (committed w ≡ L) × (pending tx w ≡ L))
            (λ e w. (committed w ≡ L) × Fault e)
    pub get_by_id_for_update-Triple :
        (L M : Ledger Quantity) (tx : B.Tx) (i : ℤ)
        → Triple
            (λ w. (committed w ≡ L) × (pending tx w ≡ M))
            (B.accounts.get_by_id_for_update tx i)
            (λ a w.
              (committed w ≡ L)
              × (pending tx w ≡ M)
              × (a.account_id ≡ i)
              × (M.balances i ≡ some (value a.balance)))
            (λ e w.
              (committed w ≡ L) × (((M.balances i ≡ none) × (e ≡ err_account_not_found)) ⊎ Fault e))
    -- The row has to be there, and `CHECK (balance >= 0)` holds.
    pub update_balance-Triple :
        (L M : Ledger Quantity) (tx : B.Tx) (i : ℤ) (d : D.Decimal)
        → Triple
            (λ w. (committed w ≡ L) × (pending tx w ≡ M))
            (B.accounts.update_balance tx i d)
            (λ _ w. (committed w ≡ L) × (pending tx w ≡ set_balance i (value d) M))
            (λ e w.
              (committed w ≡ L) × ((M.balances i ≡ none) ⊎ (lt (value d) origin ≡ true) ⊎ Fault e))
    -- Both accounts have to be there, `CHECK (amount > 0)` and `CHECK (source <> destination)`.
    pub create_transaction-Triple :
        (L M : Ledger Quantity) (tx : B.Tx) (t : Transaction D)
        → Triple
            (λ w. (committed w ≡ L) × (pending tx w ≡ M))
            (B.transactions.create tx t)
            (λ u w.
              (committed w ≡ L)
              × (pending tx w ≡ add_entry (entry_of u) M)
              × (u.source_account_id ≡ t.source_account_id)
              × (u.destination_account_id ≡ t.destination_account_id)
              × (u.amount ≡ t.amount))
            (λ e w.
              (committed w ≡ L)
              × ((M.balances t.source_account_id ≡ none)
                  ⊎ (M.balances t.destination_account_id ≡ none)
                  ⊎ (lt origin (value t.amount) ≡ false)
                  ⊎ (t.source_account_id ≡ t.destination_account_id)
                  ⊎ Fault e))
    pub commit-Triple :
        (L M : Ledger Quantity) (tx : B.Tx)
        → Triple
            (λ w. (committed w ≡ L) × (pending tx w ≡ M))
            (B.commit tx)
            (λ _ w. committed w ≡ M)
            (λ e w. Unanswered Fault Lost (committed w ≡ L) (committed w ≡ M) e)
    -- After `Commit` it does nothing but fail.
    pub rollback-Triple :
        (L : Ledger Quantity) (tx : B.Tx)
        → Triple
            (λ w. committed w ≡ L)
            (B.rollback tx)
            (λ _ w. committed w ≡ L)
            (λ _ w. committed w ≡ L)
    pub wait_lem : (delay : ℤ) (w : B.World) → committed (B.wait delay w).1 ≡ committed w
    -- `ctx.Err()` is an error of the environment
    pub wait-Fault : (delay : ℤ) (w : B.World) {e : Error} → (B.wait delay w).0 ≡ some e → Fault e
