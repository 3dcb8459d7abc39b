-- ===== src/Concurrent/Clients/Alone.antt =====
-- One call of `Transfer` with a backend to itself: the steps of a client against the retry loop.
use internal_transfers_syste.Base.{
  ℕ, zero, suc, ◌+◌, ◌≡◌, ◌≢◌, refl, inl, inr, true, false, Option, none, some, ltb, arith,
  Bool-cases,
}
use internal_transfers_syste.Base.Int.{ℤ, ==ℤ_ne}
use internal_transfers_syste.Base.Action.{Result, ok, err}
use internal_transfers_syste.Models.{
  Error, is_retryable, DecimalLib, Transaction, CreateTransactionRequest, parse_money,
}
use internal_transfers_syste.Interfaces.{Backend}
use internal_transfers_syste.Service.Transfer.{
  TransferServiceConfig, rounds, pause, execute_transfer, resume, settle, retry_loop, transfer,
}
use internal_transfers_syste.Concurrent.Clients.{
  ClientPc, pausing, attempting, answered, next_round, after_attempt,
}

-- Two steps for each round.
abbrev pub steps_of : ℕ → ℕ
steps_of zero = 0
steps_of (suc n) = suc (suc (steps_of n))

abbrev pub final : {D : DecimalLib} {W : Type 0} → Result Error (Transaction D) × W → ClientPc D × W
final (r, w) = (answered r, w)

module _ {D : DecimalLib} (B : Backend D) (config : TransferServiceConfig) (source_id dest_id : ℤ)
    (amount : D.Decimal) where
  open B use {World}

  abbrev pub paused : ℕ → Option Error × World → ClientPc D × World
  paused k (none, w) = (attempting k, w)
  paused k (some e, w) = (answered (err e), w)

  abbrev pub tried : ℕ → Result Error (Transaction D) × World → ClientPc D × World
  tried k (r, w) = (after_attempt config k r, w)

  -- The next step: the `select` before a round, or the round.
  unfoldable pub client_step : ClientPc D → World → ClientPc D × World
  client_step (pausing k) w = paused k (pause B config k w)
  client_step (attempting k) w = tried k (execute_transfer B source_id dest_id amount w)
  client_step (answered r) w = (answered r, w)

  unfoldable pub client_steps : ℕ → ClientPc D × World → ClientPc D × World
  client_steps zero x = x
  client_steps (suc n) (c, w) = client_steps n (client_step c w)

  answered_stays :
      (n : ℕ) (r : Result Error (Transaction D)) (w : World)
      → client_steps n (answered r, w) ≡ (answered r, w)
  unfolding client_steps client_step
  answered_stays zero r w = refl
  answered_stays (suc n) r w = answered_stays n r w

  -- The client that has `left` rounds to go before round `k`.
  abbrev Follows : ℕ → ℕ → Type 0
  Follows left k =
      (last_err : Option Error) (w : World)
      → client_steps (steps_of left) (next_round config k last_err, w)
        ≡ final (retry_loop B config left k last_err source_id dest_id amount w)

  module _ (left k : ℕ) (later : Follows left (suc k)) where
    after_try :
        (x : Result Error (Transaction D) × World)
        → client_steps (steps_of left) (tried k x)
          ≡ final (
              settle B config
                (λ e. retry_loop B config left (suc k) (some e) source_id dest_id amount)
                x)
    after_try (ok t, w) = answered_stays (steps_of left) (ok t) w
    after_try (err e, w) = elim (Bool-cases (is_retryable (some e))) [
      | inl again ↦ rw again (later (some e) w)
      | inr last ↦ rw last (answered_stays (steps_of left) (err e) w)
    ]

    after_pause :
        (x : Option Error × World)
        → client_steps (suc (steps_of left)) (paused k x)
          ≡ final (
              resume B config
                (λ w.
                  settle B config
                    (λ e. retry_loop B config left (suc k) (some e) source_id dest_id amount)
                    (execute_transfer B source_id dest_id amount w))
                x)
    unfolding client_steps client_step
    after_pause (none, w) = after_try (execute_transfer B source_id dest_id amount w)
    after_pause (some e, w) = answered_stays (steps_of left) (err e) w

  follows : (left k : ℕ) → left + k ≡ rounds config → Follows left k
  unfolding client_steps client_step retry_loop
  follows zero k h last_err w =
      let over : ltb k (rounds config) ≡ false = ground arith in rw over refl
  follows (suc left) k h last_err w =
      let more : ltb k (rounds config) ≡ true = ground arith in
      rw more (after_pause left k (follows left (suc k) (omega arith)) (pause B config k w))

  client_steps-retry_loop :
      (w : World)
      → client_steps (steps_of (rounds config)) (next_round config 0 none, w)
        ≡ final (retry_loop B config (rounds config) 0 none source_id dest_id amount w)
  client_steps-retry_loop = follows (rounds config) 0 (omega arith) none

module _ {D : DecimalLib} (B : Backend D) (config : TransferServiceConfig)
    (req : CreateTransactionRequest) (amount : D.Decimal) where
  -- If the two accounts differ and the amount is a number above zero: a client that is alone with a
  -- backend, in two steps for each round of the configuration, comes to the answer that `Transfer`
  -- returns, and leaves the same world.
  pub client_steps-transfer :
      req.source_account_id ≢ req.destination_account_id
      → parse_money D req.amount ≡ ok amount
      → D.less_than_or_equal amount D.zero ≡ false
      → (w : B.World)
      → client_steps B config req.source_account_id req.destination_account_id amount
          (steps_of (rounds config))
          (next_round config 0 none, w)
        ≡ final (transfer B config req w)
  unfolding transfer
  client_steps-transfer ne parsed positive w =
      rw (==ℤ_ne req.source_account_id req.destination_account_id ne) (
        rw parsed (
          rw positive (
            client_steps-retry_loop B config req.source_account_id req.destination_account_id amount
              w)))
