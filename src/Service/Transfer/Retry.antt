-- ===== src/Service/Transfer/Retry.antt =====
-- `Transfer`: the guards and the retry loop around the attempts.
pub mod Loop
use internal_transfers_syste.Base.{
  ℕ, zero, suc, ◌≡◌, refl, sym, ◌∙◌, ◌≢◌, ◌⊎◌, inl, inr, ap, subst, Bool, true, false, Option, none,
  some, String, arith, Bool-cases, if◌then◌else◌,
}
use internal_transfers_syste.Base.Int.{ℤ, ◌==ℤ◌, ==ℤ_iff}
use internal_transfers_syste.Base.Action.{Result, ok, err, Post, Action, Triple}
use internal_transfers_syste.Models.{
  Error, domain_cause, wrap_error, is_retryable, err_same_account, err_invalid_amount,
  code_transaction_failed, DecimalLib, Exact, Transaction, CreateTransactionRequest, parse_money,
}
use internal_transfers_syste.Models.Money.Laws.{lt-origin_of_pos, not-lt-origin}
use internal_transfers_syste.Interfaces.{Backend}
use internal_transfers_syste.Interfaces.Ledger.{Ledger}
use internal_transfers_syste.Interfaces.Contract.{IsLawful}
use internal_transfers_syste.Service.Transfer.{
  TransferServiceConfig, rounds, pause, resume, settle, retry_loop, execute_transfer, transfer,
}
use internal_transfers_syste.Service.Transfer.Spec.{IsSolvent, Refused, Raised, Done, Failure}
use internal_transfers_syste.Service.Transfer.Attempt.{execute_transfer-Triple}
use Loop.{Reason, Exhausted, Ends, retry_loop-Ends}

module _ {D : DecimalLib} (X : Exact D) {B : Backend D} (law : IsLawful X B) (L : Ledger X.Quantity)
    (answered : (e : Error) → ¬ (law.Lost e)) where
  open X use {Quantity, value, origin, lt}
  open law use {Fault, committed}

  -- The text of an amount that is no number above zero.
  abbrev pub NotPositive : String → Type 0
  NotPositive text =
      ((e : Error) × (parse_money D text ≡ err e))
      ⊎ ((amount : D.Decimal) × (parse_money D text ≡ ok amount)
          × (lt origin (value amount) ≡ false))

  -- Why `Transfer` returns the error `e` for this request.
  abbrev pub Rejected : TransferServiceConfig → CreateTransactionRequest → Error → Type 0
  Rejected config req e =
      ((req.source_account_id ≡ req.destination_account_id) × (e ≡ err_same_account))
      ⊎ (NotPositive req.amount × (e ≡ err_invalid_amount))
      ⊎ ((amount : D.Decimal) × (parse_money D req.amount ≡ ok amount)
          × (Reason X law L answered req.source_account_id req.destination_account_id amount e
              ⊎ Exhausted (rounds config) none e))

  module _ (config : TransferServiceConfig) (req : CreateTransactionRequest)
      (solvent : IsSolvent X L) where
    abbrev pub Outcome : Result Error (Transaction D) × B.World → Type 0
    Outcome =
        Post
          (λ t w.
            (amount : D.Decimal) × (parse_money D req.amount ≡ ok amount)
            × (lt origin (value amount) ≡ true)
            × (req.source_account_id ≢ req.destination_account_id)
            × Done X L req.source_account_id req.destination_account_id amount t (committed w))
          (λ e w. (committed w ≡ L) × Rejected config req e)

    ran :
        (amount : D.Decimal)
        → parse_money D req.amount ≡ ok amount
        → lt origin (value amount) ≡ true
        → req.source_account_id ≢ req.destination_account_id
        → (x : Result Error (Transaction D) × B.World)
        → Ends X law L answered req.source_account_id req.destination_account_id amount
            (rounds config)
            none
            x
        → Outcome x
    ran amount parsed positive ne (ok t, w) done = (amount, parsed, positive, ne, done)
    ran amount parsed positive ne (err e, w) (same, why) = (same, inr (inr (amount, parsed, why)))

    -- Past the guard on the accounts, by what the text of the amount parses to.
    parsed-Outcome :
        (w : B.World)
        → committed w ≡ L
        → req.source_account_id ≢ req.destination_account_id
        → (r : Result Error D.Decimal) → parse_money D req.amount ≡ r
        → Outcome (elim r [
          | err e ↦ (err err_invalid_amount, w)
          | ok amount ↦
              if D.less_than_or_equal amount D.zero
              then (err err_invalid_amount, w)
              else retry_loop B config
                  (rounds config)
                  0
                  none
                  req.source_account_id
                  req.destination_account_id
                  amount
                  w
        ])
    parsed-Outcome w h ne (err e) parsed = (h, inr (inl (inl (e, parsed), refl)))
    parsed-Outcome w h ne (ok amount) parsed =
        elim (Bool-cases (D.less_than_or_equal amount D.zero)) [
          | inl low ↦ rw low (h, inr (inl (inr (amount, parsed, not-lt-origin X amount low), refl)))
          | inr above ↦ rw above (
              ran amount parsed (lt-origin_of_pos X amount above) ne _ (
                retry_loop-Ends X law L answered config _ _ amount ne
                  (lt-origin_of_pos X amount above) solvent (rounds config) 0 none w h))
        ]

    -- Over a lawful backend that loses no answer, on a solvent ledger `L`: if `Transfer` returns a record,
    -- the amount is a number above zero, the accounts differ, and the ledger is `L` after exactly that
    -- transfer; if it returns an error, the ledger is `L`, and the error is the one for equal accounts,
    -- the one for an amount that is no number above zero, the refusal of the ledger, an error of the
    -- environment, or that of a loop that has given up after a transient error or that made no round.
    pub transfer-Outcome : (w : B.World) → committed w ≡ L → Outcome (transfer B config req w)
    unfolding transfer
    transfer-Outcome w h =
        elim (Bool-cases (req.source_account_id ==ℤ req.destination_account_id)) [
          | inl same ↦ rw same (h, inl ((==ℤ_iff _ _).0 same, refl))
          | inr other ↦ rw other (
              parsed-Outcome w h (λ e. cc ((==ℤ_iff _ _).1 e, other)) (parse_money D req.amount)
                refl)
        ]
