-- ===== src/Service/Transfer/Books.antt =====
-- A transfer in the books: its record says what the two balances did.
use mathlib.Core.Option.{some-injective}
use internal_transfers_syste.Base.{
  ◌≡◌, refl, sym, ◌∙◌, ap, ◌≢◌, inl, inr, Option, some, [], ◌∷◌, Bool-cases, subst,
}
use internal_transfers_syste.Base.Int.{ℤ, ◌==ℤ◌, ==ℤ_iff}
use internal_transfers_syste.Models.{DecimalLib, Exact, Transaction}
use internal_transfers_syste.Interfaces.Ledger.{Ledger, update_self, update_ne}
use internal_transfers_syste.Interfaces.Ledger.Audit.{
  Accounts, Audited, paid_by-source, paid_by-other, received_by-destination, received_by-other,
}
use internal_transfers_syste.Interfaces.Contract.{entry_of}
use internal_transfers_syste.Service.Transfer.Spec.{Moved}
use internal_transfers_syste.Service.Transfer.Conservation.{
  paid_balances, balances_after, Moved-other,
}

module _ {D : DecimalLib} (X : Exact D) where
  open X use {Quantity, value, origin, plus}

  module _ {L M : Ledger Quantity} {t : Transaction D} (m : Moved X L M t)
      (ne : t.source_account_id ≢ t.destination_account_id) where
    open m use {before, after, other, held, known, paid, result}

    abbrev Moves : ℤ → Quantity → Type 0
    Moves i p = (q : Quantity) × (M.balances i ≡ some q) × Accounts X i (entry_of X t ∷ []) p q

    source-Moves : Moves t.source_account_id before
    source-Moves = (
      after,
      ap (λ (f : ℤ → Option Quantity). f t.source_account_id) (balances_after X m ne)
          ∙ update_ne _ _ _ (paid_balances X m ne) ne
          ∙ update_self t.source_account_id after L.balances,
      ap (plus after) (paid_by-source X _ (entry_of X t) refl)
          ∙ paid
          ∙ sym (X.plus-origin before)
          ∙ ap (plus before) (sym (received_by-other X _ (entry_of X t) ne)),
    )

    destination-Moves : Moves t.destination_account_id other
    destination-Moves = (
      plus other (value t.amount),
      ap (λ (f : ℤ → Option Quantity). f t.destination_account_id) (balances_after X m ne)
          ∙ update_self t.destination_account_id _ (paid_balances X m ne),
      ap (plus _) (paid_by-other X _ (entry_of X t) (λ e. ne (sym e)))
          ∙ X.plus-origin _
          ∙ ap (plus other) (sym (received_by-destination X _ (entry_of X t) refl)),
    )

    third-Moves :
        (i : ℤ) (p : Quantity)
        → i ≢ t.source_account_id
        → i ≢ t.destination_account_id
        → L.balances i ≡ some p
        → Moves i p
    third-Moves i p not_s not_d e = (
      p,
      Moved-other X m ne i not_s not_d ∙ e,
      ap (plus p) (
          paid_by-other X i (entry_of X t) not_s
          ∙ sym (received_by-other X i (entry_of X t) not_d)),
    )

    all-Moves : (i : ℤ) (p : Quantity) → L.balances i ≡ some p → Moves i p
    all-Moves i p e = elim (Bool-cases (i ==ℤ t.source_account_id)) [
      | inl at_s ↦
          let same : i ≡ t.source_account_id = (==ℤ_iff i _).0 at_s in
          let had : before ≡ p = some-injective _ _ (sym held ∙ ap L.balances (sym same) ∙ e) in
          subst (λ j. Moves j p) (sym same) (subst (Moves _) had source-Moves)
      | inr not_s ↦ elim (Bool-cases (i ==ℤ t.destination_account_id)) [
        | inl at_d ↦
            let same : i ≡ t.destination_account_id = (==ℤ_iff i _).0 at_d in
            let had : other ≡ p = some-injective _ _ (sym known ∙ ap L.balances (sym same) ∙ e) in
            subst (λ j. Moves j p) (sym same) (subst (Moves _) had destination-Moves)
        | inr not_d ↦
            third-Moves i p (λ h. cc ((==ℤ_iff i t.source_account_id).1 h, not_s))
              (λ h. cc ((==ℤ_iff i t.destination_account_id).1 h, not_d)) e
      ]
    ]

    pub Moved-Audited : Audited X L (entry_of X t ∷ []) M
    Moved-Audited = record {
      log = ap (λ (N : Ledger Quantity). N.entries) result;
      accounts = all-Moves;
    }
