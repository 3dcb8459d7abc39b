-- ===== src/Concurrent/Clients/Rounds.antt =====
-- The rounds of a client: those before the current one have failed, and the later ones have not begun.
use native.Mathlib.Nat.{mul-add-div_right, div-eq_of_lt, mul-add-mod_self_right, mod-eq_of_lt}
use internal_transfers_syste.Base.{
  ◌==◌, ℕ, suc, ◌/◌, ◌%◌, ◌≤◌, ◌<◌, ◌≡◌, ◌≢◌, refl, sym, ◌∙◌, ap, inl, inr, subst, none, some, ltb,
  arith, Bool-cases, Option,
}
use internal_transfers_syste.Base.Action.{Result, ok, err}
use internal_transfers_syste.Models.{Error, is_retryable, DecimalLib, Exact, Transaction}
use internal_transfers_syste.Interfaces.Ledger.{Ledger}
use internal_transfers_syste.Service.Transfer.{TransferServiceConfig, rounds}
use internal_transfers_syste.Service.Session.{Order, beginning, returned}
use internal_transfers_syste.Concurrent.{SessionPc}
use internal_transfers_syste.Concurrent.Family.{
  eq_of_test, ne_of_test, update_at, update_at_ne, update_at_all,
}
use internal_transfers_syste.Concurrent.Clients.{
  ClientPc, pausing, attempting, answered, next_round, after_attempt, attempt_of, Clients,
  ClientStep, waited, cancelled, called, attempted, ClientReach, begun, then_client,
}

module _ (config : TransferServiceConfig) where
  abbrev pub R : ℕ
  R = rounds config

  some_rounds : (j : ℕ) → j < R → 0 < R
  some_rounds j h = omega arith

  pub client_of_attempt : (i j : ℕ) → j < R → attempt_of config i j / R ≡ i
  client_of_attempt i j h =
      let q = mul-add-div_right (some_rounds j h) i j in let z = div-eq_of_lt h in omega arith

  round_of_attempt : (i j : ℕ) → j < R → attempt_of config i j % R ≡ j
  round_of_attempt i j h = mul-add-mod_self_right i R j ∙ mod-eq_of_lt h

  pub other_client :
      (i i' j j' : ℕ) → j < R → j' < R → i ≢ i' → attempt_of config i j ≢ attempt_of config i' j'
  other_client i i' j j' h h' ne e =
      ne (sym (client_of_attempt i j h) ∙ ap (λ n. n / R) e ∙ client_of_attempt i' j' h')

  pub other_round : (i j j' : ℕ) → j ≢ j' → attempt_of config i j ≢ attempt_of config i j'
  other_round i j j' ne e = ne (omega arith)

  module _ {D : DecimalLib} (X : Exact D) where
    abbrev pub FailedBefore : ℕ → ℕ → (ℕ → SessionPc X) → Type 0
    FailedBefore i k pc =
        (j : ℕ) → j < k → j < R → (e : Error) × (pc (attempt_of config i j) ≡ returned (err e))

    abbrev pub NewFrom : ℕ → ℕ → (ℕ → SessionPc X) → Type 0
    NewFrom i k pc = (j : ℕ) → k ≤ j → j < R → pc (attempt_of config i j) ≡ beginning

    -- Where the sessions of client `i` are, by where it is.
    abbrev pub Rounds : ℕ → (ℕ → SessionPc X) → ClientPc D → Type 0
    Rounds i pc (pausing k) = (k < R) × FailedBefore i k pc × NewFrom i k pc
    Rounds i pc (attempting k) = (k < R) × FailedBefore i k pc × NewFrom i (suc k) pc
    Rounds i pc (answered (ok t)) =
        (k : ℕ) × (k < R)
        × FailedBefore i k pc
        × (pc (attempt_of config i k) ≡ returned (ok t))
        × NewFrom i (suc k) pc
    Rounds i pc (answered (err e)) = (k : ℕ) × FailedBefore i k pc × NewFrom i k pc

    module _ (i : ℕ) (pc : ℕ → SessionPc X) where
      next_round-Rounds :
          (k : ℕ) (last_err : Option Error)
          → FailedBefore i k pc
          → NewFrom i k pc
          → Rounds i pc (next_round config k last_err)
      next_round-Rounds k last_err failed new = elim (Bool-cases (ltb k R)) [
        | inl more ↦ let below : k < R = ground arith in rw more (below, failed, new)
        | inr over ↦ rw over (k, failed, new)
      ]

      failed_too :
          (k : ℕ) (e : Error)
          → FailedBefore i k pc
          → pc (attempt_of config i k) ≡ returned (err e)
          → FailedBefore i (suc k) pc
      failed_too k e failed now j h r = elim (Bool-cases (ltb j k)) [
        | inl before ↦ failed j (ground arith) r
        | inr last ↦
            let same : j ≡ k = ground arith in (e, ap (λ n. pc (attempt_of config i n)) same ∙ now)
      ]

      after_attempt-Rounds :
          (k : ℕ) (r : Result Error (Transaction D))
          → Rounds i pc (attempting k)
          → pc (attempt_of config i k) ≡ returned r
          → Rounds i pc (after_attempt config k r)
      after_attempt-Rounds k (ok t) (below, failed, new) now = (k, below, failed, now, new)
      after_attempt-Rounds k (err e) (below, failed, new) now =
          elim (Bool-cases (is_retryable (some e))) [
            | inl again ↦
                rw again (next_round-Rounds (suc k) (some e) (failed_too k e failed now) new)
            | inr final ↦ rw final (suc k, failed_too k e failed now, new)
          ]

      -- The sessions of other clients do not matter.
      module _ (pc' : ℕ → SessionPc X) where
        abbrev Same : ℕ → Type 0
        Same j = pc' (attempt_of config i j) ≡ pc (attempt_of config i j)

        FailedBefore-Same :
            (k : ℕ)
            → ((j : ℕ) → j < k → j < R → Same j)
            → FailedBefore i k pc
            → FailedBefore i k pc'
        FailedBefore-Same k same failed j h r = let (e, was) = failed j h r in (e, same j h r ∙ was)

        NewFrom-Same :
            (k : ℕ) → ((j : ℕ) → k ≤ j → j < R → Same j) → NewFrom i k pc → NewFrom i k pc'
        NewFrom-Same k same new j h r = same j h r ∙ new j h r

        Rounds-Same : ((j : ℕ) → j < R → Same j) → (c : ClientPc D) → Rounds i pc c → Rounds i pc' c
        Rounds-Same same (pausing k) (below, failed, new) =
            (below, FailedBefore-Same k (λ j _. same j) failed, NewFrom-Same k (λ j _. same j) new)
        Rounds-Same same (attempting k) (below, failed, new) = (
          below,
          FailedBefore-Same k (λ j _. same j) failed,
          NewFrom-Same (suc k) (λ j _. same j) new,
        )
        Rounds-Same same (answered (ok t)) (k, below, failed, now, new) = (
          k,
          below,
          FailedBefore-Same k (λ j _. same j) failed,
          same k below ∙ now,
          NewFrom-Same (suc k) (λ j _. same j) new,
        )
        Rounds-Same same (answered (err e)) (k, failed, new) =
            (k, FailedBefore-Same k (λ j _. same j) failed, NewFrom-Same k (λ j _. same j) new)

        attempting-Same :
            (k : ℕ)
            → ((j : ℕ) → j ≢ k → Same j)
            → Rounds i pc (attempting k)
            → Rounds i pc' (attempting k)
        attempting-Same k same (below, failed, new) = (
          below,
          FailedBefore-Same k (λ j h _. same j (λ e. omega arith)) failed,
          NewFrom-Same (suc k) (λ j h _. same j (λ e. omega arith)) new,
        )

    abbrev pub AllRounds : Clients X → Type 0
    AllRounds c = (i : ℕ) → Rounds i c.system.pc (c.at i)

    called-Rounds :
        (c : Clients X) (i k : ℕ) (p : SessionPc X)
        → c.at i ≡ attempting k
        → AllRounds c
        → (j : ℕ) → Rounds j (update_at (attempt_of config i k) p c.system.pc) (c.at j)
    called-Rounds c i k p e all j =
        let was : ℕ → SessionPc X = c.system.pc in
        let now : ℕ → SessionPc X = update_at (attempt_of config i k) p was in
        let mine : Rounds i was (attempting k) = subst (Rounds i was) e (all i) in
        elim (Bool-cases (j == i)) [
          | inl same ↦
              subst (λ n. Rounds n now (c.at n)) (eq_of_test i j same)
                (subst (Rounds i now) (sym e) (
                  attempting-Same i was now k
                    (λ n ne. update_at_ne _ _ p was (other_round i n k ne)) mine))
          | inr other ↦
              Rounds-Same j was now
                (λ n below.
                  update_at_ne _ _ p was
                    (other_client j i n k below mine.0 (λ e. ne_of_test i j other (sym e))))
                (c.at j) (all j)
        ]

    module _ (order : ℕ → Order D) where
      ClientStep-AllRounds :
          {c d : Clients X} → ClientStep X config order c d → AllRounds c → AllRounds d
      ClientStep-AllRounds {c} (waited i k e) all =
          let (below, failed, new) = subst (Rounds i c.system.pc) e (all i) in
          update_at_all (λ j. Rounds j c.system.pc) i (attempting k) c.at
            (below, failed, λ j h. new j (omega arith)) (λ j _. all j)
      ClientStep-AllRounds {c} (cancelled i k f e) all =
          let (_, failed, new) = subst (Rounds i c.system.pc) e (all i) in
          update_at_all (λ j. Rounds j c.system.pc) i (answered (err f)) c.at (suc k, failed, new)
            (λ j _. all j)
      ClientStep-AllRounds {c} (called i k {p} e m) all = called-Rounds c i k p e all
      ClientStep-AllRounds {c} (attempted i k r e done) all =
          update_at_all (λ j. Rounds j c.system.pc) i (after_attempt config k r) c.at
            (after_attempt-Rounds i c.system.pc k r (subst (Rounds i c.system.pc) e (all i)) done)
            (λ j _. all j)

      pub ClientReach-AllRounds :
          {L : Ledger X.Quantity} {c : Clients X} → ClientReach X config order L c → AllRounds c
      ClientReach-AllRounds begun = λ i.
          next_round-Rounds i (λ _. beginning) 0 none (λ j h. absurd (omega arith)) (λ j _ _. refl)
      ClientReach-AllRounds (then_client before next) =
          ClientStep-AllRounds next (ClientReach-AllRounds before)
