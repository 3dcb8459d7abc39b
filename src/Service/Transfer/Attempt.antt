-- ===== src/Service/Transfer/Attempt.antt =====
-- One attempt, `executeTransfer`: what it does to the committed ledger, on every path.
pub mod Steps
use internal_transfers_syste.Base.{
  ◌≡◌, refl, sym, ◌∙◌, ◌≢◌, ◌⊎◌, inl, inr, ap, subst, Bool, true, false, Option, none, some, String,
  List, arith, Bool-cases, if◌then◌else◌,
}
use internal_transfers_syste.Base.Int.{ℤ, pos, ltb_ℤ, ◌==ℤ◌, ==ℤ_refl, ==ℤ_ne}
use internal_transfers_syste.Base.Action.{
  Result, ok, err, Post, Action, Triple, >>=-Triple, map_error-Triple, Triple-weaken, pure-Triple,
  raise-Triple, given-Triple,
}
use internal_transfers_syste.Models.{
  Error, domain_cause, wrap_error, err_account_not_found, err_insufficient_balance,
  code_database_error, DecimalLib, Exact, Account, Transaction, zero_time,
}
use internal_transfers_syste.Models.Money.Laws.{lt-sub-origin, plus-nonneg}
use internal_transfers_syste.Interfaces.{Backend}
use internal_transfers_syste.Interfaces.Ledger.{
  Ledger, update, set_balance, add_entry, update_ne, update_self,
}
use internal_transfers_syste.Interfaces.Contract.{entry_of, IsLawful}
use internal_transfers_syste.Service.Transfer.{
  or_database_error, source_of, destination_of, new_transaction, move_money, in_transaction,
  execute_transfer, deferring_rollback,
}
use internal_transfers_syste.Service.Transfer.Spec.{
  IsSolvent, Moved, Refused, Raised, Done, Failure,
}
use Steps.{Failed, raised, Open, Read, move_money-Triple}

module _ {D : DecimalLib} (X : Exact D) {B : Backend D} (law : IsLawful X B) (L : Ledger X.Quantity)
    (s d : ℤ) (amount : D.Decimal) where
  open X use {Quantity, value, origin, plus, lt}
  open law use {Fault, Lost, committed, pending}

  module _ (ne : s ≢ d) (positive : lt origin (value amount) ≡ true) (solvent : IsSolvent X L) where
    get_step :
        (tx : B.Tx) (i : ℤ)
        → (L.balances i ≡ none → Refused X L s d amount err_account_not_found)
        → Triple
            (Open X law L s d amount tx L)
            (B.accounts.get_by_id_for_update tx i)
            (λ a w.
              Open X law L s d amount tx L w
              × ((a.account_id ≡ i) × (L.balances i ≡ some (value a.balance))))
            (Failed X law L s d amount)
    get_step tx i refuse =
        Triple-weaken (law.get_by_id_for_update-Triple L L tx i) (λ a w h. ((h.0, h.1), (h.2, h.3)))
          (λ e w h. inl (h.0, reason e h.1))
      where
        reason :
            (e : Error)
            → ((L.balances i ≡ none) × (e ≡ err_account_not_found)) ⊎ Fault e
            → Refused X L s d amount e ⊎ Raised X Fault e
        reason e (inl (missing, same)) =
            inl (subst (Refused X L s d amount) (sym same) (refuse missing))
        reason e (inr f) = inr (inl f)

    -- The lower account is locked first, whichever of the two it is.
    dest_first :
        (tx : B.Tx) (first second : Account D)
        → Read X law L s d amount second first
        → Triple
            (Open X law L s d amount tx L)
            (move_money B tx s d amount
              (source_of d s first second)
              (destination_of d s first second))
            (λ t w. Done X L s d amount t (committed w))
            (Failed X law L s d amount)
    dest_first tx first second read =
        rw (==ℤ_ne d s (λ e. ne (sym e)))
          (move_money-Triple X law L s d amount ne positive solvent tx second first read)

    source_first :
        (tx : B.Tx) (first second : Account D)
        → Read X law L s d amount first second
        → Triple
            (Open X law L s d amount tx L)
            (move_money B tx s d amount
              (source_of s s first second)
              (destination_of s s first second))
            (λ t w. Done X L s d amount t (committed w))
            (Failed X law L s d amount)
    source_first tx first second read =
        rw (==ℤ_refl s)
          (move_money-Triple X law L s d amount ne positive solvent tx first second read)

    in_transaction-Triple :
        (tx : B.Tx)
        → Triple
            (Open X law L s d amount tx L)
            (in_transaction B tx s d amount)
            (λ t w. Done X L s d amount t (committed w))
            (Failed X law L s d amount)
    unfolding in_transaction
    in_transaction-Triple tx = elim (Bool-cases (ltb_ℤ d s)) [
      | inl lower ↦ rw lower (
          >>=-Triple (get_step tx d (λ m. inr (inl (m, refl)))) λ first.
            given-Triple λ (one, bal_one). >>=-Triple (get_step tx s (λ m. inl (m, refl))) λ second.
              given-Triple λ (two, bal_two). dest_first tx first second (record {
                source_id = two;
                dest_id = one;
                source_held = bal_two;
                dest_held = bal_one;
              }))
      | inr higher ↦ rw higher (
          >>=-Triple (get_step tx s (λ m. inl (m, refl))) λ first. given-Triple λ (one, bal_one).
            >>=-Triple (get_step tx d (λ m. inr (inl (m, refl)))) λ second.
              given-Triple λ (two, bal_two). source_first tx first second (record {
                source_id = one;
                dest_id = two;
                source_held = bal_one;
                dest_held = bal_two;
              }))
    ]

    rollback_keeps : (tx : B.Tx) (w : B.World) → committed (B.rollback tx w).1 ≡ committed w
    rollback_keeps tx w = go (B.rollback tx w) ((law.rollback-Triple (committed w) tx).run w refl)
      where
        go :
            (x : Result Error (Unit {0}) × B.World)
            → Post (λ _ v. committed v ≡ committed w) (λ _ v. committed v ≡ committed w) x
            → committed x.1 ≡ committed w
        go (ok _, v) h = h
        go (err _, v) h = h

    deferring_rollback-Triple :
        (tx : B.Tx) {P : B.World → Type 0} (m : Action B.World Error (Transaction D))
        → Triple P m (λ t w. Done X L s d amount t (committed w)) (Failed X law L s d amount)
        → Triple P
            (deferring_rollback B tx m)
            (λ t w. Done X L s d amount t (committed w))
            (Failed X law L s d amount)
    deferring_rollback-Triple tx m h = record { run = λ w p. go (m w) (h.run w p) }
      where
        go :
            (x : Result Error (Transaction D) × B.World)
            → Post (λ t w. Done X L s d amount t (committed w)) (Failed X law L s d amount) x
            → Post
                (λ t w. Done X L s d amount t (committed w))
                (Failed X law L s d amount)
                (x.0, (B.rollback tx x.1).1)
        go (ok t, v) h = subst (Done X L s d amount t) (sym (rollback_keeps tx v)) h
        go (err e, v) h = subst (Failure X law L s d amount e) (sym (rollback_keeps tx v)) h

    -- An attempt between two different accounts, for an amount above zero, on a solvent ledger `L`: with a
    -- record, the ledger is `L` after that transfer; with an error, either the ledger is `L`, and the error
    -- is a refusal of the ledger or one of the environment, or the answer to the commit was lost and the
    -- transfer is done.
    pub execute_transfer-Triple :
        Triple
          (λ w. committed w ≡ L)
          (execute_transfer B s d amount)
          (λ t w. Done X L s d amount t (committed w))
          (λ e w. Failure X law L s d amount e (committed w))
    unfolding execute_transfer wrap_error
    execute_transfer-Triple =
        >>=-Triple
          (map_error-Triple _ (law.begin_tx-Triple L)
            (λ e w h. raised X law L s d amount _ h.0 h.1))
          λ tx. deferring_rollback-Triple tx _ (in_transaction-Triple tx)
