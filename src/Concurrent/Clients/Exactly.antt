-- ===== src/Concurrent/Clients/Exactly.antt =====
-- How often the transfer of a client is done.
use internal_transfers_syste.Base.{
  ℕ, suc, ◌<◌, ◌≡◌, ◌≢◌, ◌⊎◌, inl, inr, ltb, subst, arith, Bool-cases, ◌/◌,
}
use internal_transfers_syste.Base.Action.{ok, err}
use internal_transfers_syste.Models.{Error, DecimalLib, Exact}
use internal_transfers_syste.Interfaces.Ledger.{Ledger}
use internal_transfers_syste.Service.Transfer.{TransferServiceConfig, rounds}
use internal_transfers_syste.Service.Session.{Order, returned, beginning}
use internal_transfers_syste.Concurrent.{SessionPc, Loses}
use internal_transfers_syste.Concurrent.History.{History, fate, Occurs, Absent, Settled}
use internal_transfers_syste.Concurrent.Serial.{Serializes, Reach-Serializes}
use internal_transfers_syste.Concurrent.Clients.{
  ClientPc, pausing, attempting, answered, attempt_of, placed, Clients, ClientReach, of_sessions,
}
use internal_transfers_syste.Concurrent.Clients.Rounds.{
  R, FailedBefore, NewFrom, Rounds, ClientReach-AllRounds,
}

module _ {D : DecimalLib} (config : TransferServiceConfig) (Lost : ℕ → Type 0) (h : History D)
    (i : ℕ) where
  -- The session of round `j` has not committed, unless its own answer from the commit was lost.
  abbrev pub Unpaid : ℕ → Type 0
  Unpaid j = Lost (attempt_of config i j) ⊎ Absent (attempt_of config i j) h

  abbrev pub NoRound : Type 0
  NoRound = (j : ℕ) → j < R config → Unpaid j

  abbrev pub NoOtherRound : ℕ → Type 0
  NoOtherRound k = (j : ℕ) → j < R config → j ≢ k → Unpaid j

  -- A client that has answered with a record has committed it in one round, and in no other; one that
  -- has answered with an error has committed nothing, and so far nor has one that is still at it, but
  -- for its current round.
  abbrev pub Exactly : ClientPc D → Type 0
  Exactly (pausing k) = NoRound
  Exactly (attempting k) = (k < R config) × NoOtherRound k
  Exactly (answered (ok t)) =
      (k : ℕ) × (k < R config) × Occurs (attempt_of config i k) t h × NoOtherRound k
  Exactly (answered (err e)) = NoRound

  module _ (X : Exact D) (pc : ℕ → SessionPc X)
      (settled : (n : ℕ) → Settled (Lost n) n h (fate (pc n))) where
    Unpaid-failed : (j : ℕ) (e : Error) → pc (attempt_of config i j) ≡ returned (err e) → Unpaid j
    Unpaid-failed j e now =
        subst (λ p. Settled (Lost (attempt_of config i j)) (attempt_of config i j) h (fate p)) now
          (settled (attempt_of config i j))

    Unpaid-new : (j : ℕ) → pc (attempt_of config i j) ≡ beginning → Unpaid j
    Unpaid-new j now = inr (
        subst (λ p. Settled (Lost (attempt_of config i j)) (attempt_of config i j) h (fate p)) now
          (settled (attempt_of config i j)))

    no_round : (k : ℕ) → FailedBefore config X i k pc → NewFrom config X i k pc → NoRound
    no_round k failed new j below = elim (Bool-cases (ltb j k)) [
      | inl before ↦ let (e, now) = failed j (ground arith) below in Unpaid-failed j e now
      | inr later ↦ Unpaid-new j (new j (ground arith) below)
    ]

    no_other_round :
        (k : ℕ) → FailedBefore config X i k pc → NewFrom config X i (suc k) pc → NoOtherRound k
    no_other_round k failed new j below ne = elim (Bool-cases (ltb j k)) [
      | inl before ↦ let (e, now) = failed j (ground arith) below in Unpaid-failed j e now
      | inr later ↦ Unpaid-new j (new j (ground arith) below)
    ]

    Rounds-Exactly : (c : ClientPc D) → Rounds config X i pc c → Exactly c
    Rounds-Exactly (pausing k) (_, failed, new) = no_round k failed new
    Rounds-Exactly (attempting k) (below, failed, new) = (below, no_other_round k failed new)
    Rounds-Exactly (answered (ok t)) (k, below, failed, now, new) = (
      k,
      below,
      subst (λ p. Settled (Lost (attempt_of config i k)) (attempt_of config i k) h (fate p)) now
          (settled (attempt_of config i k)),
      no_other_round k failed new,
    )
    Rounds-Exactly (answered (err e)) (k, failed, new) = no_round k failed new

module _ {D : DecimalLib} (X : Exact D) (config : TransferServiceConfig) (order : ℕ → Order D)
    (L : Ledger X.Quantity) (apart : (i : ℕ) → (order i).source_id ≢ (order i).dest_id) where
  -- The sessions of which the commit took effect without an answer.
  abbrev pub Unknown : {c : Clients X} → ClientReach X config order L c → ℕ → Type 0
  Unknown r n = Loses X (placed config order) n (of_sessions X config order r)

  -- However many calls of `Transfer` are interleaved, each for two different accounts, with whatever
  -- errors, pauses and cancellations: the committed ledger is that of a serial execution of the
  -- transfers of some rounds; a call that has answered with a record has done its transfer, with that
  -- record, in exactly one round, and one that has answered with an error has not done it in any, but
  -- for rounds whose commit took effect while its answer was lost.
  pub ClientReach-Exactly :
      {c : Clients X} (r : ClientReach X config order L c)
      → (z : Serializes X (placed config order) L (Unknown r) c.system) × ((i : ℕ)
          → Exactly config (Unknown r) z.history i (c.at i))
  ClientReach-Exactly {c} r =
      let z : Serializes X (placed config order) L (Unknown r) c.system =
        Reach-Serializes X (placed config order) L (λ n. apart (n / rounds config))
          (of_sessions X config order r) in
      (
        z,
        λ i.
            Rounds-Exactly config (Unknown r) z.history i X c.system.pc z.settled (c.at i)
              (ClientReach-AllRounds config X order r i),
      )
