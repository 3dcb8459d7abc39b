-- ===== src/Service/Transfer/Repeat.antt =====
-- A transfer whose commit took effect but whose answer was lost is made again by the retry loop.
use mathlib.Core.Option.{some-injective}
use internal_transfers_syste.Base.{
  ℕ, suc, ◌-◌, ◌≡◌, refl, sym, ◌∙◌, ap, subst, ◌≢◌, true, Option, none, some, arith,
}
use internal_transfers_syste.Base.Int.{ℤ, pos, pos_part, ◌≤ℤ◌, ==ℤ_ne}
use internal_transfers_syste.Base.Action.{Result, ok, err, Post}
use internal_transfers_syste.Models.{
  Error, domain_cause, code_database_error, is_retryable, wrap_error, DecimalLib, Exact,
  parse_money, Transaction, CreateTransactionRequest,
}
use internal_transfers_syste.Models.Errors.Laws.{is_retryable-wrap_error}
use internal_transfers_syste.Models.Money.Laws.{positive_passes}
use internal_transfers_syste.Interfaces.{Backend}
use internal_transfers_syste.Interfaces.Ledger.{Ledger, update_ne, update_self}
use internal_transfers_syste.Interfaces.Contract.{IsLawful}
use internal_transfers_syste.Service.Transfer.{
  TransferServiceConfig, rounds, retry_loop, execute_transfer, transfer, pause, retry_delay,
}
use internal_transfers_syste.Service.Transfer.Spec.{IsSolvent, Done, Failure}
use internal_transfers_syste.Service.Transfer.Attempt.{execute_transfer-Triple}
use internal_transfers_syste.Service.Transfer.Conservation.{
  Moved-IsSolvent, paid_balances, balances_after,
}
use internal_transfers_syste.Service.Transfer.Success.{rounds-suc}

module _ {D : DecimalLib} (X : Exact D) {B : Backend D} (law : IsLawful X B) (L : Ledger X.Quantity)
    (solvent : IsSolvent X L) (config : TransferServiceConfig) (req : CreateTransactionRequest)
    (amount : D.Decimal) (parsed : parse_money D req.amount ≡ ok amount)
    (positive : X.lt X.origin (X.value amount) ≡ true)
    (apart : req.source_account_id ≢ req.destination_account_id)
    (some_retry : pos 1 ≤ℤ config.max_retries) where
  open X use {Quantity, value, origin, plus, lt}
  open law use {committed}

  abbrev pub attempt : B.World → Result Error (Transaction D) × B.World
  attempt = execute_transfer B req.source_account_id req.destination_account_id amount

  two_rounds : (k : ℕ) × (rounds config ≡ suc (suc k))
  two_rounds = (pos_part config.max_retries - 1, rounds-suc config (omega arith) ∙ omega arith)

  wrapped_retryable :
      (f : Error)
      → is_retryable (some f) ≡ true
      → is_retryable (some (domain_cause code_database_error "failed to commit transaction" f))
        ≡ true
  unfolding wrap_error
  wrapped_retryable f h =
      (is_retryable-wrap_error code_database_error "failed to commit transaction" "" f h).0

  second_round :
      (w w₁ w₂ w₃ : B.World) (f : Error) (t : Transaction D)
      → attempt w ≡ (err (domain_cause code_database_error "failed to commit transaction" f), w₁)
      → is_retryable (some f) ≡ true
      → B.wait (retry_delay config 0) w₁ ≡ (none, w₂)
      → attempt w₂ ≡ (ok t, w₃)
      → transfer B config req w ≡ (ok t, w₃)
  unfolding transfer retry_loop pause
  second_round w w₁ w₂ w₃ f t first transient waited second =
      rw
        (
          ==ℤ_ne _ _ apart,
          parsed,
          positive_passes X amount positive,
          two_rounds.1,
          first,
          wrapped_retryable f transient,
          waited,
          second,
        )
        refl

  -- The source of a transfer that is done has paid the amount.
  Done-source :
      {s d : ℤ} {K M : Ledger Quantity} {t : Transaction D}
      → s ≢ d
      → Done X K s d amount t M
      → (q : Quantity) × (p : Quantity) × (K.balances s ≡ some q)
        × (M.balances s ≡ some p)
        × (plus p (value amount) ≡ q)
  Done-source {s} {K} {M} {t} ne (m, from, to, all) =
      let apart_t : t.source_account_id ≢ t.destination_account_id = λ e. ne (sym from ∙ e ∙ to) in
      (
        m.before,
        m.after,
        ap K.balances (sym from) ∙ m.held,
        ap M.balances (sym from)
            ∙ ap (λ (f : ℤ → Option Quantity). f t.source_account_id) (balances_after X m apart_t)
            ∙ update_ne _ _ _ (paid_balances X m apart_t) apart_t
            ∙ update_self t.source_account_id m.after K.balances,
        ap (λ b. plus m.after (value b)) (sym all) ∙ m.paid,
      )

  -- What is left of the source's balance: it paid the amount twice.
  abbrev pub PaidTwice : Ledger Quantity → Type 0
  PaidTwice M =
      (q : Quantity) × (p : Quantity) × (L.balances req.source_account_id ≡ some q)
      × (M.balances req.source_account_id ≡ some p)
      × (plus (plus p (value amount)) (value amount) ≡ q)

  twice :
      {K M : Ledger Quantity} {t₁ t : Transaction D}
      → Done X L req.source_account_id req.destination_account_id amount t₁ K
      → Done X K req.source_account_id req.destination_account_id amount t M
      → PaidTwice M
  twice one two =
      let (q, q₁, held, then₁, paid) = Done-source apart one in
      let (q₂, p, held₂, now, paid₂) = Done-source apart two in
      let same : q₁ ≡ q₂ = some-injective _ _ (sym then₁ ∙ held₂) in
      (q, p, held, now, ap (λ r. plus r (value amount)) (paid₂ ∙ sym same) ∙ paid)

  -- The second round finds the ledger that the first has left, and is done on it.
  second-Done :
      (w₁ w₂ w₃ : B.World) (t₁ t : Transaction D)
      → Done X L req.source_account_id req.destination_account_id amount t₁ (committed w₁)
      → committed w₂ ≡ committed w₁
      → attempt w₂ ≡ (ok t, w₃)
      → Done X
          (committed w₁)
          req.source_account_id
          req.destination_account_id
          amount
          t
          (committed w₃)
  second-Done w₁ w₂ w₃ t₁ t (m, from, to, all) same second =
      subst
        (Post
          (λ u v.
            Done X (committed w₁) req.source_account_id req.destination_account_id amount u
              (committed v))
          (λ e v.
            Failure X law (committed w₁) req.source_account_id req.destination_account_id amount e
              (committed v)))
        second
        ((execute_transfer-Triple X law (committed w₁) _ _ amount apart positive (
            Moved-IsSolvent X m (λ e. apart (sym from ∙ e ∙ to))
              (ap (λ b. lt origin (value b)) all ∙ positive) solvent)).run
          w₂ same)

  -- With at least one retry: if the first attempt makes the transfer and loses the answer to its commit to
  -- a transient error, and the second attempt returns a record after the pause, then `Transfer` returns
  -- that second record as its success, and the source has paid the amount twice.
  pub transfer_repeats :
      (w w₁ w₂ w₃ : B.World) (f : Error) (t₁ t : Transaction D)
      → attempt w ≡ (err (domain_cause code_database_error "failed to commit transaction" f), w₁)
      → Done X L req.source_account_id req.destination_account_id amount t₁ (committed w₁)
      → is_retryable (some f) ≡ true
      → B.wait (retry_delay config 0) w₁ ≡ (none, w₂)
      → attempt w₂ ≡ (ok t, w₃)
      → (transfer B config req w ≡ (ok t, w₃)) × PaidTwice (committed w₃)
  transfer_repeats w w₁ w₂ w₃ f t₁ t first done transient waited second = (
    second_round w w₁ w₂ w₃ f t first transient waited second,
    twice done (
        second-Done w₁ w₂ w₃ t₁ t done
          (ap (λ (x : Option Error × B.World). committed x.1) (sym waited) ∙ law.wait_lem _ w₁)
          second),
  )
