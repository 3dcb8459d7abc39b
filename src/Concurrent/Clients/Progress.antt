-- ===== src/Concurrent/Clients/Progress.antt =====
-- While some call of `Transfer` has no answer, some call has a step.
use native.Mathlib.Nat.{div-add-mod', mod-lt}
use internal_transfers_syste.Base.{
  ℕ, suc, ◌/◌, ◌%◌, ◌≤◌, ◌<◌, ◌≡◌, ◌≢◌, refl, sym, ap, ◌⊎◌, inl, inr, subst, true, ltb, arith,
  Bool-cases,
}
use internal_transfers_syste.Base.Int.{ℤ, IsInt64}
use internal_transfers_syste.Base.Action.{Result, ok, err}
use internal_transfers_syste.Models.{Error, DecimalLib, Exact, Transaction}
use internal_transfers_syste.Interfaces.Ledger.{Ledger}
use internal_transfers_syste.Service.Transfer.{TransferServiceConfig}
use internal_transfers_syste.Service.Transfer.Spec.{IsSolvent}
use internal_transfers_syste.Service.Session.{
  Order, Pc, beginning, locking_first, locking_second, debiting, crediting, recording, committing,
  rolling_back, returned,
}
use internal_transfers_syste.Concurrent.{SessionPc}
use internal_transfers_syste.Concurrent.Waiting.{IsOpen, MayHold, HoldsRow}
use internal_transfers_syste.Concurrent.Release.{Reach-AllMayHold}
use internal_transfers_syste.Concurrent.Progress.{GoesOn, Reach-GoesOn}
use internal_transfers_syste.Concurrent.Clients.{
  ClientPc, pausing, attempting, answered, attempt_of, placed, Clients, ClientReach, of_sessions,
}
use internal_transfers_syste.Concurrent.Clients.Rounds.{
  R, FailedBefore, NewFrom, Rounds, ClientReach-AllRounds,
}

-- A session that has begun and not returned.
abbrev pub IsInside : {D : DecimalLib} → Pc D (Unit {0}) → Type 0
IsInside beginning = ⊥
IsInside (returned _) = ⊥
IsInside _ = Unit

module _ (config : TransferServiceConfig) {D : DecimalLib} (X : Exact D) where
  module _ (i j : ℕ) (pc : ℕ → SessionPc X) (below : j < R config)
      (inside : IsInside (pc (attempt_of config i j))) where
    not_failed : (k : ℕ) → FailedBefore config X i k pc → k ≤ j
    not_failed k failed = elim (Bool-cases (ltb j k)) [
      | inl before ↦
          let (e, now) = failed j (ground arith) below in absurd (subst IsInside now inside)
      | inr later ↦ ground arith
    ]

    not_new : (k : ℕ) → NewFrom config X i k pc → j < k
    not_new k new = elim (Bool-cases (ltb j k)) [
      | inl before ↦ ground arith
      | inr later ↦ absurd (subst IsInside (new j (ground arith) below) inside)
    ]

    -- It is the current round of its client.
    Rounds-current : (c : ClientPc D) → Rounds config X i pc c → c ≡ attempting j
    Rounds-current (pausing k) (_, failed, new) =
        let h = not_failed k failed in let l = not_new k new in absurd (omega arith)
    Rounds-current (attempting k) (_, failed, new) =
        let h = not_failed k failed in
        let l = not_new (suc k) new in let same : k ≡ j = omega arith in ap attempting same
    Rounds-current (answered (ok t)) (k, _, failed, now, new) =
        let h = not_failed k failed in
        let l = not_new (suc k) new in
        let same : j ≡ k = omega arith in
        absurd (subst IsInside now (subst (λ n. IsInside (pc (attempt_of config i n))) same inside))
    Rounds-current (answered (err e)) (k, failed, new) =
        let h = not_failed k failed in let l = not_new k new in absurd (omega arith)

  module _ (order : ℕ → Order D) where
    -- A step of some client at which the database makes no error of its own.
    pub data CanStep (c : Clients X) : Type 0 where
      can_wait : (i k : ℕ) → c.at i ≡ pausing k → CanStep c
      can_call :
          (i k : ℕ)
          → c.at i ≡ attempting k
          → GoesOn X
              (placed config order)
              (attempt_of config i k)
              c.system.db
              (c.system.pc (attempt_of config i k))
          → CanStep c
      can_answer :
          (i k : ℕ) (r : Result Error (Transaction D))
          → c.at i ≡ attempting k
          → c.system.pc (attempt_of config i k) ≡ returned r
          → CanStep c

    IsOpen-or_returned :
        (p : SessionPc X) → IsOpen p ⊎ ((r : Result Error (Transaction D)) × (p ≡ returned r))
    IsOpen-or_returned (returned r) = inr (r, refl)
    IsOpen-or_returned beginning = inl tt
    IsOpen-or_returned (locking_first _) = inl tt
    IsOpen-or_returned (locking_second _ _) = inl tt
    IsOpen-or_returned (debiting _ _ _) = inl tt
    IsOpen-or_returned (crediting _ _) = inl tt
    IsOpen-or_returned (recording _) = inl tt
    IsOpen-or_returned (committing _ _) = inl tt
    IsOpen-or_returned (rolling_back _ _) = inl tt

    holder-IsInside : (o : Order D) (x : ℤ) (p : SessionPc X) → MayHold o p x → IsInside p
    holder-IsInside o x beginning h = h
    holder-IsInside o x (returned _) h = h
    holder-IsInside o x (locking_first _) h = tt
    holder-IsInside o x (locking_second _ _) h = tt
    holder-IsInside o x (debiting _ _ _) h = tt
    holder-IsInside o x (crediting _ _) h = tt
    holder-IsInside o x (recording _) h = tt
    holder-IsInside o x (committing _ _) h = tt
    holder-IsInside o x (rolling_back _ _) h = tt

    module _ {L : Ledger X.Quantity} {c : Clients X} (reached : ClientReach X config order L c)
        (some_rounds : 0 < R config) where
      abbrev Moves : ℕ → Type 0
      Moves n = GoesOn X (placed config order) n c.system.db (c.system.pc n)

      -- A session inside its transaction is the current round of a client.
      inside_steps : (n : ℕ) → IsInside (c.system.pc n) → Moves n → CanStep c
      inside_steps n inside moves =
          let e : attempt_of config (n / R config) (n % R config) ≡ n = div-add-mod' n (R config) in
          can_call (n / R config) (n % R config)
            (Rounds-current (n / R config) (n % R config) c.system.pc (mod-lt n some_rounds)
              (subst (λ k. IsInside (c.system.pc k)) (sym e) inside) (c.at (n / R config))
              (ClientReach-AllRounds config X order reached (n / R config)))
            (subst Moves (sym e) moves)

      -- The session of the current round has not returned.
      open_steps :
          (i k : ℕ)
          → c.at i ≡ attempting k
          → (n : ℕ) × ((n ≡ attempt_of config i k) ⊎ HoldsRow X (placed config order) c.system n)
            × IsOpen (c.system.pc n)
            × Moves n
          → CanStep c
      open_steps i k now (n, inl same, _, moves) = can_call i k now (subst Moves same moves)
      open_steps i k now (n, inr (x, held), _, moves) =
          inside_steps n
            (holder-IsInside (placed config order n) x (c.system.pc n) (
              Reach-AllMayHold X (placed config order) L (of_sessions X config order reached) n x
                held))
            moves

    module _ (represent : (q : X.Quantity) → (b : D.Decimal) × (X.value b ≡ q))
        (L : Ledger X.Quantity) (apart : (i : ℕ) → (order i).source_id ≢ (order i).dest_id)
        (fits : (i : ℕ) → IsInt64 (order i).source_id × IsInt64 (order i).dest_id)
        (positive : (i : ℕ) → X.lt X.origin (X.value (order i).amount) ≡ true)
        (solvent : IsSolvent X L) {c : Clients X} (reached : ClientReach X config order L c) where
      in_round : (i k : ℕ) → c.at i ≡ attempting k → CanStep c
      in_round i k now = elim (IsOpen-or_returned (c.system.pc (attempt_of config i k))) [
        | inl is_open ↦ open_steps reached (some_rounds i k now) i k now (
            Reach-GoesOn X represent (placed config order) L (λ n. apart (n / R config))
              (λ n. fits (n / R config)) (λ n. positive (n / R config)) solvent
              (of_sessions X config order reached) (attempt_of config i k) is_open)
        | inr (r, e) ↦ can_answer i k r now e
      ]
        where
          some_rounds : (i k : ℕ) → c.at i ≡ attempting k → 0 < R config
          some_rounds i k now =
              let (below, _, _) =
                subst (Rounds config X i c.system.pc) now
                  (ClientReach-AllRounds config X order reached i) in
              omega arith

      -- If every call of `Transfer` is for two different accounts with ids of 64 bits and an amount above
      -- zero, the ledger is solvent before, and every quantity is the value of a decimal, then at every
      -- point of every interleaving at which some call has no answer, some call has a step without an
      -- error of the database: it ends its pause, or a round's call is done as it was asked, or it looks
      -- at its round's answer.
      pub ClientReach-CanStep :
          (i : ℕ) → ((r : Result Error (Transaction D)) → c.at i ≢ answered r) → CanStep c
      ClientReach-CanStep i waits = by_place (c.at i) refl
        where
          by_place : (q : ClientPc D) → c.at i ≡ q → CanStep c
          by_place (pausing k) e = can_wait i k e
          by_place (attempting k) e = in_round i k e
          by_place (answered r) e = absurd (waits r e)
