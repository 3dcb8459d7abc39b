-- ===== src/Service/Transfer/Attempt/Steps.antt =====
-- The steps of `executeTransfer` between `BeginTx` and the answer of `Commit`.
use internal_transfers_syste.Base.{
  ◌≡◌, refl, sym, ◌∙◌, ◌≢◌, ◌⊎◌, inl, inr, ap, subst, true, false, none, some, String, arith,
  Bool-cases,
}
use internal_transfers_syste.Base.Int.{ℤ}
use internal_transfers_syste.Base.Action.{
  Triple, >>=-Triple, map_error-Triple, Triple-weaken, pure-Triple, raise-Triple, given-Triple,
}
use internal_transfers_syste.Models.{
  Error, wrap_error, code_database_error, DecimalLib, Exact, Account, Transaction,
}
use internal_transfers_syste.Models.Money.Laws.{lt-sub-origin, plus-nonneg}
use internal_transfers_syste.Interfaces.{Backend}
use internal_transfers_syste.Interfaces.Ledger.{Ledger, set_balance, add_entry, update_ne}
use internal_transfers_syste.Interfaces.Contract.{entry_of, IsLawful}
use internal_transfers_syste.Service.Transfer.{or_database_error, new_transaction, move_money}
use internal_transfers_syste.Service.Transfer.Spec.{IsSolvent, Done, Failure}

module _ {D : DecimalLib} (X : Exact D) {B : Backend D} (law : IsLawful X B) (L : Ledger X.Quantity)
    (s d : ℤ) (amount : D.Decimal) where
  open X use {Quantity, value, origin, plus, lt}
  open law use {Fault, Lost, committed, pending}

  abbrev pub Failed : Error → B.World → Type 0
  Failed e w = Failure X law L s d amount e (committed w)

  pub raised :
      (m : String) {e : Error} {w : B.World}
      → committed w ≡ L
      → Fault e
      → Failed (wrap_error code_database_error m (some e)) w
  unfolding wrap_error
  raised m {e} {w} c f = inl (c, inr (inr (m, e, f, refl)))

  -- The transaction is open, nothing of it is committed, and it would commit `M`.
  abbrev pub Open : B.Tx → Ledger Quantity → B.World → Type 0
  Open tx M w = (committed w ≡ L) × (pending tx w ≡ M)

  -- A write that the schema allows fails by an error of the environment only.
  update_step :
      (m : String) (tx : B.Tx) (M : Ledger Quantity) (a i : ℤ) (x : D.Decimal) {q : Quantity}
      → a ≡ i
      → M.balances i ≡ some q
      → lt (value x) origin ≡ false
      → Triple
          (Open tx M)
          (or_database_error m (B.accounts.update_balance tx a x))
          (λ _. Open tx (set_balance i (value x) M))
          Failed
  unfolding wrap_error
  update_step m tx M a i x same there nonneg =
      subst
        (λ k.
          Triple (Open tx M) (or_database_error m (B.accounts.update_balance tx k x))
            (λ _. Open tx (set_balance i (value x) M)) Failed)
        (sym same)
        (map_error-Triple _ (law.update_balance-Triple L M tx i x)
          (λ e w h. raised m h.0 (possible e h.1)))
    where
      possible :
          (e : Error) → (M.balances i ≡ none) ⊎ (lt (value x) origin ≡ true) ⊎ Fault e → Fault e
      possible e (inl missing) = cc
      possible e (inr (inl below)) = cc
      possible e (inr (inr f)) = f

  commit_step :
      (tx : B.Tx) (M : Ledger Quantity) (t : Transaction D)
      → Done X L s d amount t M
      → Triple
          (Open tx M)
          (or_database_error "failed to commit transaction" (B.commit tx))
          (λ _ w. committed w ≡ M)
          Failed
  unfolding wrap_error
  commit_step tx M t made = map_error-Triple _ (law.commit-Triple L M tx) λ e w. elim [
    | inl (c, f) ↦ raised _ c f
    | inr (c, l) ↦ inr (t, subst (Done X L s d amount t) (sym c) made, e, l, refl)
  ]

  -- The record names the request.
  abbrev Records : Transaction D → Type 0
  Records t = (t.source_account_id ≡ s) × (t.destination_account_id ≡ d) × (t.amount ≡ amount)

  -- The two accounts as they were read under their locks.
  pub record Read (source dest : Account D) : Type 0 where
    pub source_id : source.account_id ≡ s
    pub dest_id : dest.account_id ≡ d
    pub source_held : L.balances s ≡ some (value source.balance)
    pub dest_held : L.balances d ≡ some (value dest.balance)

  module _ (ne : s ≢ d) (positive : lt origin (value amount) ≡ true) (solvent : IsSolvent X L) where
    -- The ledger that is to be committed, but for the new record.
    abbrev paid_ledger : Account D → Account D → Ledger Quantity
    paid_ledger source dest =
        set_balance d (value (D.add dest.balance amount))
          (set_balance s (value (D.sub source.balance amount)) L)

    entry_step :
        (tx : B.Tx) (source dest : Account D)
        → Triple
            (Open tx (paid_ledger source dest))
            (or_database_error "failed to create transaction record"
              (B.transactions.create tx (new_transaction s d amount)))
            (λ t w. Open tx (add_entry (entry_of X t) (paid_ledger source dest)) w × Records t)
            Failed
    unfolding wrap_error
    entry_step tx source dest =
        map_error-Triple _
          (Triple-weaken
            (law.create_transaction-Triple L (paid_ledger source dest) tx
              (new_transaction s d amount))
            (λ t w h. ((h.0, h.1), (h.2, h.3, h.4))) (λ e w h. h))
          (λ e w h. raised _ h.0 (possible e h.1))
      where
        possible :
            (e : Error)
            → ((paid_ledger source dest).balances s ≡ none)
              ⊎ ((paid_ledger source dest).balances d ≡ none)
              ⊎ (lt origin (value amount) ≡ false)
              ⊎ (s ≡ d)
              ⊎ Fault e
            → Fault e
        possible e (inl missing) = absurd (ground arith)
        possible e (inr (inl missing)) = absurd (ground arith)
        possible e (inr (inr (inl small))) = cc
        possible e (inr (inr (inr (inl same)))) = absurd (ne same)
        possible e (inr (inr (inr (inr f)))) = f

    paid_ledger-Done :
        (source dest : Account D) (t : Transaction D)
        → Read source dest
        → D.less_than source.balance amount ≡ false
        → Records t
        → Done X L s d amount t (add_entry (entry_of X t) (paid_ledger source dest))
    paid_ledger-Done source dest t read enough (from, to, all) = (
      record {
        before = value source.balance;
        after = value (D.sub source.balance amount);
        other = value dest.balance;
        held = ap L.balances from ∙ read.source_held;
        known = ap L.balances to ∙ read.dest_held;
        paid =
            ap (λ a. plus (value (D.sub source.balance amount)) (value a)) all
            ∙ X.value-sub source.balance amount;
        covered = lt-sub-origin X source.balance amount ∙ enough;
        result = λ i. add_entry (entry_of X t) (
            set_balance (sym to i)
              ((X.value-add dest.balance amount
                  ∙ ap (λ a. plus (value dest.balance) (value a)) (sym all))
                i)
              (set_balance (sym from i) (value (D.sub source.balance amount)) L));
      },
      from,
      to,
      all,
    )

    dest_nonneg :
        {source dest : Account D}
        → Read source dest
        → lt (value (D.add dest.balance amount)) origin ≡ false
    dest_nonneg {dest} read =
        ap (λ q. lt q origin) (X.value-add dest.balance amount)
        ∙ plus-nonneg X _ _ (solvent d _ read.dest_held) positive

    pub move_money-Triple :
        (tx : B.Tx) (source dest : Account D)
        → Read source dest
        → Triple
            (Open tx L)
            (move_money B tx s d amount source dest)
            (λ t w. Done X L s d amount t (committed w))
            Failed
    unfolding move_money
    move_money-Triple tx source dest read = elim (Bool-cases (D.less_than source.balance amount)) [
      | inl short ↦ rw short (
          raise-Triple _ λ w o. inl (
            o.0,
            inl (
                inr (
                  inr (
                    _,
                    _,
                    read.source_held,
                    read.dest_held,
                    sym (X.less_than-lt _ _) ∙ short,
                    refl,
                  ))),
          ))
      | inr enough ↦ rw enough (
          >>=-Triple
            (update_step _ tx L source.account_id s (D.sub source.balance amount) read.source_id
              read.source_held (lt-sub-origin X _ _ ∙ enough))
            λ _.
              >>=-Triple
                (update_step _ tx _ dest.account_id d (D.add dest.balance amount)
                  {q = value dest.balance} read.dest_id
                  (update_ne s d _ L.balances (λ e. ne (sym e)) ∙ read.dest_held)
                  (dest_nonneg read))
                λ _. >>=-Triple (entry_step tx source dest) λ t. given-Triple λ made.
                  let done : Done X L s d amount t
                      (add_entry (entry_of X t) (paid_ledger source dest)) =
                    paid_ledger-Done source dest t read enough made in
                  >>=-Triple (commit_step tx _ t done)
                    λ _. pure-Triple t (λ w c. subst (Done X L s d amount t) (sym c) done))
    ]
