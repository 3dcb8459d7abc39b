-- ===== src/Concurrent/Clients.antt =====
-- Many calls of `Transfer` at once, each with its retry loop: each round is a session of its own of the
-- system of Concurrent. A client is a call whose request has passed the checks; which errors end a
-- pause or an attempt is up to the environment.
pub mod Rounds
pub mod Exactly
pub mod Ends
pub mod Alone
pub mod Progress
use internal_transfers_syste.Base.{
  ℕ, suc, ◌+◌, ◌*◌, ◌/◌, ◌≡◌, Option, none, some, ltb, if◌then◌else◌,
}
use internal_transfers_syste.Base.Action.{Result, ok, err}
use internal_transfers_syste.Models.{
  Error, wrap_error, is_retryable, code_transaction_failed, DecimalLib, Exact, Transaction,
}
use internal_transfers_syste.Interfaces.Ledger.{Ledger}
use internal_transfers_syste.Service.Transfer.{TransferServiceConfig, rounds}
use internal_transfers_syste.Service.Session.{Order, returned}
use internal_transfers_syste.Concurrent.{
  SessionPc, Database, Move, System, session, start, Reach, here, then_step,
}
use internal_transfers_syste.Concurrent.Family.{update_at}

-- Before the round of this number, in it, or at the end.
pub data ClientPc (D : DecimalLib) : Type 0 where
  pausing attempting : ℕ → ClientPc D
  answered : Result Error (Transaction D) → ClientPc D

-- The session of round `k` of client `i`.
abbrev pub attempt_of : TransferServiceConfig → ℕ → ℕ → ℕ
attempt_of config i k = i * rounds config + k

module _ {D : DecimalLib} (config : TransferServiceConfig) where
  -- The test `attempt <= s.config.MaxRetries`, and what follows the loop.
  abbrev pub next_round : ℕ → Option Error → ClientPc D
  next_round k last_err =
      if ltb k (rounds config)
      then pausing k
      else answered
          (err (wrap_error code_transaction_failed "transfer failed after retries" last_err))

  -- The rest of the body of the loop, after `executeTransfer`.
  abbrev pub after_attempt : ℕ → Result Error (Transaction D) → ClientPc D
  after_attempt k (ok t) = answered (ok t)
  after_attempt k (err e) =
      if is_retryable (some e) then next_round (suc k) (some e) else answered (err e)

  -- What each session is asked for: that is what its client was asked for.
  abbrev pub placed : (ℕ → Order D) → ℕ → Order D
  placed order n = order (n / rounds config)

module _ {D : DecimalLib} (X : Exact D) where
  pub record Clients : Type 0 where
    pub system : System X
    pub at : ℕ → ClientPc D

  module _ (config : TransferServiceConfig) (order : ℕ → Order D) where
    abbrev pub all_new : Ledger X.Quantity → Clients
    all_new L = record { system = start X L; at = λ i. next_round config 0 none }

    pub data ClientStep (c : Clients) : Clients → Type 0 where
      -- `<-time.After(delay)`, or no pause before the first round
      waited :
          (i k : ℕ)
          → c.at i ≡ pausing k
          → ClientStep c (record c { at = update_at i (attempting k) c.at })
      -- `<-ctx.Done()`
      cancelled :
          (i k : ℕ) (e : Error)
          → c.at i ≡ pausing (suc k)
          → ClientStep c (record c { at = update_at i (answered (err e)) c.at })
      -- one call of `executeTransfer`
      called :
          (i k : ℕ) {p : SessionPc X} {db' : Database X}
          → c.at i ≡ attempting k
          → Move X
              (placed config order)
              (attempt_of config i k)
              c.system.db
              (c.system.pc (attempt_of config i k))
              p
              db'
          → ClientStep c (record c {
            system = record { db = db'; pc = update_at (attempt_of config i k) p c.system.pc };
          })
      attempted :
          (i k : ℕ) (r : Result Error (Transaction D))
          → c.at i ≡ attempting k
          → c.system.pc (attempt_of config i k) ≡ returned r
          → ClientStep c (record c { at = update_at i (after_attempt config k r) c.at })

    -- What the clients may lead to, in any interleaving.
    pub data ClientReach (L : Ledger X.Quantity) : Clients → Type 0 where
      begun : ClientReach L (all_new L)
      then_client : {c d : Clients} → ClientReach L c → ClientStep c d → ClientReach L d

    -- The sessions of the rounds are sessions of Concurrent.
    unfoldable pub of_sessions :
        {L : Ledger X.Quantity} {c : Clients}
        → ClientReach L c
        → Reach X (placed config order) L c.system
    of_sessions begun = here
    of_sessions (then_client before (waited _ _ _)) = of_sessions before
    of_sessions (then_client before (cancelled _ _ _ _)) = of_sessions before
    of_sessions (then_client before (called i k _ m)) = then_step (of_sessions before) (session _ m)
    of_sessions (then_client before (attempted _ _ _ _ _)) = of_sessions before
