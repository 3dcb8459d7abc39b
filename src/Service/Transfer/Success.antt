-- ===== src/Service/Transfer/Success.antt =====
-- What `Transfer` returns when the environment raises no error: the request decides.
use mathlib.Core.Option.{some-injective}
use internal_transfers_syste.Base.{
  ℕ, suc, ◌≡◌, refl, sym, ◌∙◌, ap, ◌≢◌, ◌⊎◌, inl, inr, true, false, none, some, arith,
}
use internal_transfers_syste.Base.Int.{ℤ, pos, pos_part, ◌+ℤ◌, ◌≤ℤ◌, ==ℤ_ne}
use internal_transfers_syste.Base.Action.{Result, ok, err, Post}
use internal_transfers_syste.Models.{
  Error, err_insufficient_balance, err_account_not_found, is_retryable, DecimalLib, Exact,
  parse_money, Transaction, CreateTransactionRequest,
}
use internal_transfers_syste.Models.Errors.Laws.{refusals_final}
use internal_transfers_syste.Models.Money.Laws.{origin-plus, positive_passes}
use internal_transfers_syste.Interfaces.{Backend}
use internal_transfers_syste.Interfaces.Ledger.{Ledger}
use internal_transfers_syste.Interfaces.Contract.{IsLawful}
use internal_transfers_syste.Service.Transfer.{
  TransferServiceConfig, rounds, settle, retry_loop, transfer, pause,
}
use internal_transfers_syste.Service.Transfer.Spec.{IsSolvent, Refused, Done, Failure}
use internal_transfers_syste.Service.Transfer.Attempt.{execute_transfer-Triple}

pub rounds-suc :
    (config : TransferServiceConfig)
    → pos 0 ≤ℤ config.max_retries
    → rounds config ≡ suc (pos_part config.max_retries)
unfolding ◌+ℤ◌
rounds-suc config h = ground arith

module _ {D : DecimalLib} (X : Exact D) {B : Backend D} (law : IsLawful X B) (L : Ledger X.Quantity)
    (calm : (e : Error) → ¬ (law.Fault e) × ¬ (law.Lost e)) (solvent : IsSolvent X L) where
  open X use {Quantity, value, origin, plus, lt}
  open law use {committed}

  -- A request that the ledger allows.
  pub record Allowed (s d : ℤ) (amount : D.Decimal) : Type 0 where
    pub funds : Quantity
    pub held : L.balances s ≡ some funds
    pub enough : lt funds (value amount) ≡ false
    pub other : Quantity
    pub known : L.balances d ≡ some other

  -- A transfer that is done was allowed: the source held the amount.
  Done-covered :
      {s d : ℤ} {amount : D.Decimal} {t : Transaction D} {M : Ledger Quantity}
      → Done X L s d amount t M
      → (funds : Quantity) × (L.balances s ≡ some funds) × (lt funds (value amount) ≡ false)
  Done-covered {amount} (m, from, to, all) = (
    m.before,
    ap L.balances (sym from) ∙ m.held,
    (λ i. lt (sym m.paid i) (sym (origin-plus X (value amount)) i))
        ∙ (λ i. lt (plus m.after (value (all i))) (plus origin (value amount)))
        ∙ X.lt-plus m.after origin (value amount)
        ∙ m.covered,
  )

  -- In a calm environment an attempt fails only by refusal, and leaves the ledger alone.
  calm-Failure :
      {s d : ℤ} {amount : D.Decimal} {e : Error} {M : Ledger Quantity}
      → Failure X law L s d amount e M
      → (M ≡ L) × Refused X L s d amount e
  calm-Failure (inl (same, inl why)) = (same, why)
  calm-Failure (inl (same, inr (inl f))) = absurd ((calm _).0 f)
  calm-Failure (inl (same, inr (inr (m, f, fault, e)))) = absurd ((calm _).0 fault)
  calm-Failure (inr (t, done, f, lost, e)) = absurd ((calm _).1 lost)

  Refused-final :
      {s d : ℤ} {amount : D.Decimal} (e : Error)
      → Refused X L s d amount e
      → is_retryable (some e) ≡ false
  Refused-final e (inl (m, same)) = rw same refusals_final.0
  Refused-final e (inr (inl (m, same))) = rw same refusals_final.0
  Refused-final e (inr (inr (q, o, held, known, short, same))) = rw same refusals_final.1

  module _ (config : TransferServiceConfig) where
    -- What the first round makes of an attempt in a calm environment: it ends the loop.
    abbrev Settled : ℤ → ℤ → D.Decimal → Result Error (Transaction D) × B.World → Type 0
    Settled s d amount =
        Post (λ t w. Done X L s d amount t (committed w))
          (λ e w. (committed w ≡ L) × Refused X L s d amount e)

    settle_final :
        (s d : ℤ) (amount : D.Decimal)
        (again : Error → B.World → Result Error (Transaction D) × B.World)
        (x : Result Error (Transaction D) × B.World)
        → Post
            (λ t w. Done X L s d amount t (committed w))
            (λ e w. Failure X law L s d amount e (committed w))
            x
        → Settled s d amount (settle B config again x)
    settle_final s d amount again (ok t, w) h = h
    settle_final s d amount again (err e, w) h =
        rw (Refused-final e (calm-Failure h).1) (calm-Failure h)

    loop_final :
        (left : ℕ) (s d : ℤ) (amount : D.Decimal)
        → s ≢ d
        → lt origin (value amount) ≡ true
        → (w : B.World) → committed w ≡ L
        → Settled s d amount (retry_loop B config (suc left) 0 none s d amount w)
    unfolding retry_loop pause
    loop_final left s d amount ne positive w h =
        settle_final s d amount _ _
          ((execute_transfer-Triple X law L s d amount ne positive solvent).run w h)

    module _ (req : CreateTransactionRequest) (amount : D.Decimal)
        (parsed : parse_money D req.amount ≡ ok amount) (positive : lt origin (value amount) ≡ true)
        (apart : req.source_account_id ≢ req.destination_account_id)
        (some_round : pos 0 ≤ℤ config.max_retries) where
      transfer_final :
          (w : B.World)
          → committed w ≡ L
          → Settled req.source_account_id req.destination_account_id amount
              (transfer B config req w)
      unfolding transfer
      transfer_final w h =
          rw
            (
              ==ℤ_ne _ _ apart,
              parsed,
              positive_passes X amount positive,
              rounds-suc config some_round,
            )
            (loop_final _ _ _ amount apart positive w h)

      -- Over a lawful backend that raises no error of its own and loses no answer, on a solvent ledger, with
      -- a retry limit that is not negative: a request for an amount above zero between two different accounts
      -- that are there, the first of which holds the amount, is granted, and the transfer is done.
      pub transfer_succeeds :
          (w : B.World)
          → committed w ≡ L
          → Allowed req.source_account_id req.destination_account_id amount
          → (t : Transaction D) × ((transfer B config req w).0 ≡ ok t)
            × Done X L req.source_account_id req.destination_account_id amount t
                (committed (transfer B config req w).1)
      transfer_succeeds w h allowed = pick (transfer B config req w) (transfer_final w h)
        where
          impossible :
              (e : Error)
              → Refused X L req.source_account_id req.destination_account_id amount e
              → ⊥
          impossible e (inl (missing, _)) = cc (missing, allowed.held)
          impossible e (inr (inl (missing, _))) = cc (missing, allowed.known)
          impossible e (inr (inr (q, o, held, known, short, _))) =
              let same : q ≡ allowed.funds = some-injective _ _ (sym held ∙ allowed.held) in
              cc (ap (λ p. lt p (value amount)) same, short, allowed.enough)

          pick :
              (x : Result Error (Transaction D) × B.World)
              → Settled req.source_account_id req.destination_account_id amount x
              → (t : Transaction D) × (x.0 ≡ ok t)
                × Done X L req.source_account_id req.destination_account_id amount t (committed x.1)
          pick (ok t, v) done = (t, refl, done)
          pick (err e, v) (same, why) = absurd (impossible e why)

      -- A request that the ledger does not allow, with the error that a calm environment gives it.
      abbrev pub Forbidden : Error → Type 0
      Forbidden e =
          (((L.balances req.source_account_id ≡ none)
              ⊎ (L.balances req.destination_account_id ≡ none))
            × (e ≡ err_account_not_found))
          ⊎ ((funds : Quantity) × (other : Quantity) × (L.balances req.source_account_id
                ≡ some funds)
              × (L.balances req.destination_account_id ≡ some other)
              × (lt funds (value amount) ≡ true)
              × (e ≡ err_insufficient_balance))

      not-Done :
          (e : Error) {t : Transaction D} {M : Ledger Quantity}
          → Forbidden e
          → Done X L req.source_account_id req.destination_account_id amount t M
          → ⊥
      not-Done e (inl (inl missing, _)) done =
          let (q, held, _) = Done-covered done in cc (missing, held)
      not-Done e (inl (inr missing, _)) (m, from, to, all) =
          cc (missing, ap L.balances (sym to) ∙ m.known)
      not-Done e (inr (funds, other, held, known, short, _)) done =
          let (q, again, covered) = Done-covered done in
          let same : funds ≡ q = some-injective _ _ (sym held ∙ again) in
          cc (ap (λ p. lt p (value amount)) same, short, covered)

      same_error :
          (e f : Error)
          → Forbidden e
          → Refused X L req.source_account_id req.destination_account_id amount f
          → f ≡ e
      same_error e f (inl (_, one)) (inl (_, two)) = two ∙ sym one
      same_error e f (inl (_, one)) (inr (inl (_, two))) = two ∙ sym one
      same_error e f (inl (inl missing, one)) (inr (inr (q, o, held, known, short, two))) =
          cc (missing, held)
      same_error e f (inl (inr missing, one)) (inr (inr (q, o, held, known, short, two))) =
          cc (missing, known)
      same_error e f (inr (funds, other, held, known, short, one)) (inl (missing, two)) =
          cc (missing, held)
      same_error e f (inr (funds, other, held, known, short, one)) (inr (inl (missing, two))) =
          cc (missing, known)
      same_error e f (inr (funds, other, held, known, short, one))
            (inr (inr (_, _, _, _, _, two))) =
          two ∙ sym one

      -- In the same environment, a request for an amount above zero between two different accounts, one of
      -- which is not there, or the first of which holds less than the amount, gets the error that says so,
      -- and the ledger stays as it was.
      pub transfer_refuses :
          (e : Error) (w : B.World)
          → committed w ≡ L
          → Forbidden e
          → ((transfer B config req w).0 ≡ err e) × (committed (transfer B config req w).1 ≡ L)
      transfer_refuses e w h forbidden = pick (transfer B config req w) (transfer_final w h)
        where
          pick :
              (x : Result Error (Transaction D) × B.World)
              → Settled req.source_account_id req.destination_account_id amount x
              → (x.0 ≡ err e) × (committed x.1 ≡ L)
          pick (ok t, v) done = absurd (not-Done e forbidden done)
          pick (err f, v) (same, why) = (ap err (same_error e f forbidden why), same)
