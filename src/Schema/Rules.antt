-- ===== src/Schema/Rules.antt =====
-- The constraints of the migrations in the words of the ledger, and the two changes of the program
-- against them: a transfer and a new account.
use internal_transfers_syste.Base.{
  ◌≡◌, ◌≢◌, sym, ap, subst, inl, inr, true, false, Option, none, List, [], ◌∷◌, arith, Bool-cases,
}
use internal_transfers_syste.Base.Int.{ℤ, ◌==ℤ◌}
use internal_transfers_syste.Models.{DecimalLib, Exact, Transaction}
use internal_transfers_syste.Interfaces.Ledger.{Entry, Ledger, update, set_balance}
use internal_transfers_syste.Interfaces.Contract.{entry_of}
use internal_transfers_syste.Service.Transfer.Spec.{IsSolvent, Moved}
use internal_transfers_syste.Service.Transfer.Conservation.{Moved-IsSolvent, balances_after}
use internal_transfers_syste.Schema.{
  migrations, transaction_items, restrict, AllFit, Satisfies, Fits, transaction_row, Enforced,
  create_table, transactions,
}

module _ {D : DecimalLib} (X : Exact D) where
  open X use {Quantity, value, origin, lt}

  -- The accounts of the balances `f` include those of `g`.
  abbrev pub Extends : (ℤ → Option Quantity) → (ℤ → Option Quantity) → Type 0
  Extends f g = (i : ℤ) → g i ≢ none → f i ≢ none

  pub record IsGood (f : ℤ → Option Quantity) (e : Entry Quantity) : Type 0 where
    pub source_there : f e.source ≢ none
    pub destination_there : f e.destination ≢ none
    pub positive : lt origin e.amount ≡ true
    pub apart : e.source ≢ e.destination

  abbrev pub AllGood : (ℤ → Option Quantity) → List (Entry Quantity) → Type 0
  AllGood f [] = Unit
  AllGood f (e ∷ entries) = IsGood f e × AllGood f entries

  AllGood-Extends :
      (f g : ℤ → Option Quantity)
      → Extends f g
      → (entries : List (Entry Quantity)) → AllGood g entries
      → AllGood f entries
  AllGood-Extends f g h [] all = tt
  AllGood-Extends f g h (e ∷ entries) (good, all) = (
    record {
      source_there = h e.source good.source_there;
      destination_there = h e.destination good.destination_there;
      positive = good.positive;
      apart = good.apart;
    },
    AllGood-Extends f g h entries all,
  )

  -- The rules of the schema, row by row.
  abbrev pub Keeps : Ledger Quantity → Type 0
  Keeps L = IsSolvent X L × AllGood L.balances L.entries

  fit_all :
      (L : Ledger Quantity) (entries : List (Entry Quantity))
      → AllGood L.balances entries
      → AllFit X L entries (transaction_items restrict)
  fit_all L [] all = tt
  fit_all L (e ∷ entries) (good, all) = (fit, fit_all L entries all)
    where
      fit : Fits X L (transaction_row X e) (transaction_items restrict)
      fit = ground (arith, good.source_there, good.destination_there, good.positive, good.apart)

  good_all :
      (L : Ledger Quantity) (entries : List (Entry Quantity))
      → AllFit X L entries (transaction_items restrict)
      → AllGood L.balances entries
  good_all L [] all = tt
  good_all L (e ∷ entries) (fit, all) = (
    record {
      source_there = fit.1.0.1.0;
      destination_there = fit.1.1.0.1.0;
      positive = fit.1.1.1.0.1.0;
      apart = fit.1.1.1.1.1.0;
    },
    good_all L entries all,
  )

  pub Keeps-Satisfies : (L : Ledger Quantity) → Keeps L → Satisfies X L migrations
  Keeps-Satisfies L (solvent, all) =
      let fit : Enforced X L (create_table transactions (transaction_items restrict)) =
        fit_all L L.entries all in
      ground (arith, solvent, fit)

  pub Satisfies-Keeps : (L : Ledger Quantity) → Satisfies X L migrations → Keeps L
  Satisfies-Keeps L h = (λ i q e. (h.0 i q e).1.0.1.0, good_all L L.entries (h.1.1.1.1.0))

  pub update-Extends : (i : ℤ) (q : Quantity) (f : ℤ → Option Quantity) → Extends (update i q f) f
  update-Extends i q f j h = ground (arith, h)

  module _ {L M : Ledger Quantity} {t : Transaction D} (m : Moved X L M t)
      (ne : t.source_account_id ≢ t.destination_account_id)
      (positive : lt origin (value t.amount) ≡ true) where
    Moved-Extends : Extends M.balances L.balances
    Moved-Extends =
        let paid : ℤ → Option Quantity = update t.source_account_id m.after L.balances in
        subst (λ f. Extends f L.balances) (sym (balances_after X m ne))
          (λ i h.
            update-Extends t.destination_account_id (X.plus m.other (value t.amount)) paid i
              (update-Extends t.source_account_id m.after L.balances i h))

    Moved-IsGood : IsGood M.balances (entry_of X t)
    Moved-IsGood = record {
      source_there = Moved-Extends _ (λ e. cc (m.held, e));
      destination_there = Moved-Extends _ (λ e. cc (m.known, e));
      positive = positive;
      apart = ne;
    }

    pub Moved-Keeps : Keeps L → Keeps M
    Moved-Keeps (solvent, all) = (
      Moved-IsSolvent X m ne positive solvent,
      subst (AllGood M.balances) (sym (ap (λ (N : Ledger Quantity). N.entries) m.result))
          (Moved-IsGood, AllGood-Extends M.balances L.balances Moved-Extends L.entries all),
    )

  -- A new account that is not below zero.
  pub set_balance-Keeps :
      (L : Ledger Quantity) (i : ℤ) (q : Quantity)
      → lt q origin ≡ false
      → Keeps L
      → Keeps (set_balance i q L)
  set_balance-Keeps L i q fine (solvent, all) = (
    λ j p e. elim (Bool-cases (j ==ℤ i)) [
      | inl same ↦ cc (rw same at e, fine)
      | inr other ↦ solvent j p (rw other at e)
    ],
    AllGood-Extends _ L.balances (update-Extends i q L.balances) L.entries all,
  )
