-- ===== src/Repository/Lawful.antt =====
-- The services may rely on the repositories, where these may rely on the driver.
use internal_transfers_syste.Base.{ℕ, ◌≡◌, refl, ◌⊎◌, inl, inr, true, none, String, ◌<>◌}
use internal_transfers_syste.Base.Format.{format_int}
use internal_transfers_syste.Base.Int.{ℤ}
use internal_transfers_syste.Base.Action.{Post, Triple, Triple-weaken, map_error-Triple, >>=-Triple}
use internal_transfers_syste.Models.{
  Error, errorf, no_rows, errors_is, err_account_not_found, DecimalLib, Exact,
}
use internal_transfers_syste.Interfaces.Ledger.{Ledger, set_balance}
use internal_transfers_syste.Interfaces.Contract.{Unanswered, IsLawful}
use internal_transfers_syste.Repository.{repositories}
use internal_transfers_syste.Repository.Account
use internal_transfers_syste.Repository.Account.{about_account, lookup_error}
use internal_transfers_syste.Repository.Transaction
use internal_transfers_syste.Repository.Driver.Contract.{IsLawfulDriver}
use internal_transfers_syste.Repository.Driver.{Pgx}

module _ {D : DecimalLib} (X : Exact D) where
  open X use {Quantity, value, origin, lt}

  -- An error of the driver, as it is or with a text in front of it.
  abbrev pub Wrapped : (Error → Type 0) → Error → Type 0
  Wrapped Cause e = Cause e ⊎ ((prefix : String) × (f : Error) × Cause f × (e ≡ errorf prefix f))

  module _ {P : Pgx D} (law : IsLawfulDriver X P) where
    open law use {Fault, Lost, Duplicate, committed, pending}

    looked_up :
        {Absent : Type 0} (before after : String) (i : ℤ) (e : Error)
        → (Absent × (e ≡ no_rows)) ⊎ Fault e
        → (Absent × (lookup_error before i after e ≡ err_account_not_found))
          ⊎ Wrapped Fault (lookup_error before i after e)
    unfolding errors_is
    looked_up before after i e (inl (absent, same)) = inl (absent, rw same refl)
    looked_up before after i e (inr fault) = inr (
        inr (
          before <> (format_int i <> (after <> ": ")),
          e,
          fault,
          rw (law.Fault-no_rows e fault) refl,
        ))

    Wrapped-answer :
        {Before After : Type 0} (prefix : String) (e : Error)
        → Unanswered X Fault Lost Before After e
        → Unanswered X (Wrapped Fault) (Wrapped Lost) Before After (errorf prefix e)
    Wrapped-answer prefix e (inl (same, fault)) = inl (same, inr (prefix, e, fault, refl))
    Wrapped-answer prefix e (inr (now, lost)) = inr (now, inr (prefix, e, lost, refl))

    raw_answer :
        {Before After : Type 0} (e : Error)
        → Unanswered X Fault Lost Before After e
        → Unanswered X (Wrapped Fault) (Wrapped Lost) Before After e
    raw_answer e (inl (same, fault)) = inl (same, inl fault)
    raw_answer e (inr (now, lost)) = inr (now, inl lost)

    not_inserted :
        {Before After There Below : Type 0} (prefix : String) (e : Error)
        → (Before × There × Duplicate e) ⊎ (Before × Below) ⊎ Unanswered X Fault Lost Before After e
        → (Before × There × Wrapped Duplicate (errorf prefix e))
          ⊎ (Before × Below)
          ⊎ Unanswered X (Wrapped Fault) (Wrapped Lost) Before After (errorf prefix e)
    not_inserted prefix e (inl (same, there, dup)) = inl (same, there, inr (prefix, e, dup, refl))
    not_inserted prefix e (inr (inl below)) = inr (inl below)
    not_inserted prefix e (inr (inr open_end)) = inr (inr (Wrapped-answer prefix e open_end))

    -- The number of rows tells whether the account is there.
    counted :
        (L M : Ledger Quantity) (tx : P.Tx) (i : ℤ) (d : D.Decimal) (rows : ℕ)
        → Triple
            (λ w.
              (committed w ≡ L)
              × (((rows ≡ 1) × (pending tx w ≡ set_balance i (value d) M))
                  ⊎ ((rows ≡ 0) × (M.balances i ≡ none))))
            (Account.one_row P i rows)
            (λ _ w. (committed w ≡ L) × (pending tx w ≡ set_balance i (value d) M))
            (λ e w.
              (committed w ≡ L)
              × ((M.balances i ≡ none) ⊎ (lt (value d) origin ≡ true) ⊎ Wrapped Fault e))
    counted L M tx i d rows = record { run = go }
      where
        go :
            (w : P.World)
            → (committed w ≡ L)
              × (((rows ≡ 1) × (pending tx w ≡ set_balance i (value d) M))
                  ⊎ ((rows ≡ 0) × (M.balances i ≡ none)))
            → Post
                (λ _ v. (committed v ≡ L) × (pending tx v ≡ set_balance i (value d) M))
                (λ e v.
                  (committed v ≡ L)
                  × ((M.balances i ≡ none) ⊎ (lt (value d) origin ≡ true) ⊎ Wrapped Fault e))
                (Account.one_row P i rows w)
        go w (same, inl (one, now)) = rw one (same, now)
        go w (same, inr (zero_rows, absent)) = rw zero_rows (same, inl absent)

    refused :
        {No From To Same : Type 0} (e : Error)
        → No ⊎ From ⊎ To ⊎ Same ⊎ Fault e
        → No ⊎ From ⊎ To ⊎ Same ⊎ Wrapped Fault (errorf "insert transaction: " e)
    refused e (inl h) = inl h
    refused e (inr (inl h)) = inr (inl h)
    refused e (inr (inr (inl h))) = inr (inr (inl h))
    refused e (inr (inr (inr (inl h)))) = inr (inr (inr (inl h)))
    refused e (inr (inr (inr (inr h)))) = inr (inr (inr (inr (inr (_, e, h, refl)))))

    not_written :
        {No Below : Type 0} (prefix : String) (e : Error)
        → Below ⊎ Fault e
        → No ⊎ Below ⊎ Wrapped Fault (errorf prefix e)
    not_written prefix e (inl below) = inr (inl below)
    not_written prefix e (inr fault) = inr (inr (inr (prefix, e, fault, refl)))

    lawful : IsLawful X (repositories P)
    unfolding Account.create Account.get_by_id Account.exists Account.begin_tx
        Account.get_by_id_for_update Account.update_balance Transaction.create
    lawful = record {
      Fault = Wrapped Fault;
      Lost = Wrapped Lost;
      Duplicate = Wrapped Duplicate;
      committed = committed;
      pending = pending;
      create-Triple = λ L a.
          >>=-Triple
            (map_error-Triple _ (law.insert_account-Triple L a.account_id a.balance)
              λ e w h. not_inserted _ e h)
            λ times. record { run = λ w (now, absent). (now, absent, refl, refl) };
      get_by_id-Triple = λ L i.
          map_error-Triple _ (law.select_account-Triple L i)
            λ e w (same, why). (same, looked_up "get account " "" i e why);
      exists-Triple = λ L i.
          map_error-Triple _ (law.account_exists-Triple L i)
            λ e w (same, fault). (same, inr (_, e, fault, refl));
      begin_tx-Triple = λ L.
          map_error-Triple _ (law.begin_tx-Triple L _ refl)
            λ e w (same, fault). (same, inr (_, e, fault, refl));
      get_by_id_for_update-Triple = λ L M tx i.
          map_error-Triple _ (law.select_account_for_update-Triple L M tx i)
            λ e w (same, why). (same, looked_up "get account " " for update" i e why);
      update_balance-Triple = λ L M tx i d.
          >>=-Triple
            (map_error-Triple _ (law.tx_update_balance-Triple L M tx i d)
              λ e w (same, why). (same, not_written _ e why))
            λ rows. counted L M tx i d rows;
      create_transaction-Triple = λ L M tx t.
          >>=-Triple
            (map_error-Triple _
              (law.insert_transaction-Triple L M tx t.source_account_id t.destination_account_id
                t.amount)
              λ e w (same, why). (same, refused e why))
            λ inserted. record { run = λ w (same, now). (same, now, refl, refl, refl) };
      commit-Triple =
          λ L M tx. Triple-weaken (law.commit-Triple L M tx) (λ _ w h. h) λ e w h. raw_answer e h;
      rollback-Triple = law.rollback-Triple;
      wait_lem = law.wait_lem;
      wait-Fault = λ delay w h. inl (law.wait-Fault delay w h);
    }

    -- Over a lawful driver the repositories keep the contract that the services rely on, for the same
    -- committed and pending ledgers; their errors are those of the driver, as they are or wrapped.
    pub repositories-IsLawful :
        (l : IsLawful X (repositories P)) × (l.committed ≡ committed)
        × (l.pending ≡ pending)
        × (l.Fault ≡ Wrapped Fault)
        × (l.Lost ≡ Wrapped Lost)
        × (l.Duplicate ≡ Wrapped Duplicate)
    unfolding lawful
    repositories-IsLawful = (lawful, refl, refl, refl, refl, refl)
