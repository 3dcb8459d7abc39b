-- ===== src/Service/Transfer/Conservation.antt =====
-- No transfer makes or destroys money, touches a third account, or takes an account below zero.
use internal_transfers_syste.Base.{
  ◌≡◌, sym, ◌∙◌, ap, subst, ◌≢◌, inl, inr, true, Option, some, List, Bool-cases,
}
use internal_transfers_syste.Base.Int.{ℤ, ◌==ℤ◌}
use internal_transfers_syste.Base.Action.{Result, ok, err}
use internal_transfers_syste.Models.{
  Error, DecimalLib, Exact, Transaction, CreateTransactionRequest,
}
use internal_transfers_syste.Models.Money.Laws.{plus-nonneg}
use internal_transfers_syste.Interfaces.{Backend}
use internal_transfers_syste.Interfaces.Ledger.{Ledger, update, update_ne}
use internal_transfers_syste.Interfaces.Ledger.Total.{
  Has, Distinct, total, total-update, plus_cancel_left,
}
use internal_transfers_syste.Interfaces.Contract.{IsLawful}
use internal_transfers_syste.Service.Transfer.{TransferServiceConfig, transfer}
use internal_transfers_syste.Service.Transfer.Spec.{IsSolvent, Moved}
use internal_transfers_syste.Service.Transfer.Retry.{Outcome, transfer-Outcome}

module _ {D : DecimalLib} (X : Exact D) where
  open X use {Quantity, value, origin, plus, lt}

  module _ {L M : Ledger Quantity} {t : Transaction D} (m : Moved X L M t)
      (ne : t.source_account_id ≢ t.destination_account_id) where
    open m use {before, after, other, held, known, paid, covered, result}

    abbrev pub paid_balances : ℤ → Option Quantity
    paid_balances = update t.source_account_id after L.balances

    pub known_after : paid_balances t.destination_account_id ≡ some other
    known_after = update_ne _ _ after L.balances (λ e. ne (sym e)) ∙ known

    pub balances_after :
        M.balances ≡ update t.destination_account_id (plus other (value t.amount)) paid_balances
    balances_after = ap (λ (N : Ledger Quantity). N.balances) result

    -- Over any accounts, the two among them, the sum is as before.
    pub Moved-total :
        (ids : List ℤ)
        → Distinct ids
        → Has t.source_account_id ids
        → Has t.destination_account_id ids
        → total X ids M.balances ≡ total X ids L.balances
    Moved-total ids once s_in d_in =
        let a : Quantity = value t.amount in
        let mid : Quantity = total X ids paid_balances in
        ap (total X ids) balances_after
        ∙ plus_cancel_left X _ (plus a mid) other (
            total-update X ids _ other (plus other a) paid_balances once d_in known_after
            ∙ X.plus_assoc other a mid)
        ∙ plus_cancel_left X _ (total X ids L.balances) after (
            sym (X.plus_assoc after a mid)
            ∙ ap (λ q. plus q mid) paid
            ∙ total-update X ids _ before after L.balances once s_in held)

    pub Moved-other :
        (i : ℤ)
        → i ≢ t.source_account_id
        → i ≢ t.destination_account_id
        → M.balances i ≡ L.balances i
    Moved-other i not_s not_d =
        ap (λ (f : ℤ → Option Quantity). f i) balances_after
        ∙ update_ne _ i _ paid_balances not_d
        ∙ update_ne _ i after L.balances not_s

    pub Moved-IsSolvent : lt origin (value t.amount) ≡ true → IsSolvent X L → IsSolvent X M
    Moved-IsSolvent positive solvent i q e =
        let now : update t.destination_account_id (plus other (value t.amount)) paid_balances i
            ≡ some q =
          ap (λ (f : ℤ → Option Quantity). f i) (sym balances_after) ∙ e in
        elim (Bool-cases (i ==ℤ t.destination_account_id)) [
          | inl dest ↦ cc (
            rw dest at now,
            plus-nonneg X other (value t.amount) (solvent _ other known) positive,
          )
          | inr not_dest ↦
              let source_part : paid_balances i ≡ some q = rw not_dest at now in
              elim (Bool-cases (i ==ℤ t.source_account_id)) [
                | inl source ↦ cc (rw source at source_part, covered)
                | inr not_source ↦ solvent i q (rw not_source at source_part)
              ]
        ]

  module _ {B : Backend D} (law : IsLawful X B) (L : Ledger Quantity)
      (answered : (e : Error) → ¬ (law.Lost e)) (solvent : IsSolvent X L)
      (config : TransferServiceConfig) (req : CreateTransactionRequest) where
    open law use {committed}

    -- What no transfer changes, over the accounts `ids`.
    pub record Conserves (ids : List ℤ) (M : Ledger Quantity) : Type 0 where
      pub sum : total X ids M.balances ≡ total X ids L.balances
      pub others :
          (i : ℤ)
          → i ≢ req.source_account_id
          → i ≢ req.destination_account_id
          → M.balances i ≡ L.balances i
      pub still_solvent : IsSolvent X M

    Outcome-Conserves :
        (ids : List ℤ)
        → Distinct ids
        → Has req.source_account_id ids
        → Has req.destination_account_id ids
        → (x : Result Error (Transaction D) × B.World)
        → Outcome X law L answered config req solvent x
        → Conserves ids (committed x.1)
    Outcome-Conserves ids once s_in d_in (ok t, w)
          (a, parsed, positive, ne, (moved, from, to, all)) =
        let apart : t.source_account_id ≢ t.destination_account_id = λ e. ne (sym from ∙ e ∙ to) in
        record {
          sum =
              Moved-total moved apart ids once (subst (λ i. Has i ids) (sym from) s_in)
                (subst (λ i. Has i ids) (sym to) d_in);
          others = λ i not_s not_d.
              Moved-other moved apart i (λ e. not_s (e ∙ from)) (λ e. not_d (e ∙ to));
          still_solvent =
              Moved-IsSolvent moved apart (ap (λ b. lt origin (value b)) all ∙ positive) solvent;
        }
    Outcome-Conserves ids once s_in d_in (err e, w) (same, why) = record {
      sum = ap (λ (N : Ledger Quantity). total X ids N.balances) same;
      others = λ i _ _. ap (λ (N : Ledger Quantity). N.balances i) same;
      still_solvent = subst (IsSolvent X) (sym same) solvent;
    }

    -- Over a lawful backend that loses no answer, on a solvent ledger, whatever `Transfer` returns: the
    -- balances of any list of distinct accounts with both parties in it add up to what they did, every
    -- other account has what it had, and no account is below zero.
    pub transfer-Conserves :
        (ids : List ℤ)
        → Distinct ids
        → Has req.source_account_id ids
        → Has req.destination_account_id ids
        → (w : B.World) → committed w ≡ L
        → Conserves ids (committed (transfer B config req w).1)
    transfer-Conserves ids once s_in d_in w h =
        Outcome-Conserves ids once s_in d_in (transfer B config req w)
          (transfer-Outcome X law L answered config req solvent w h)
