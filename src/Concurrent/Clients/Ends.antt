-- ===== src/Concurrent/Clients/Ends.antt =====
-- How many steps the calls of `Transfer` take, in any interleaving.
use internal_transfers_syste.Base.{
  ℕ, zero, suc, ◌+◌, ◌-◌, ◌*◌, ◌≤◌, ◌<◌, ◌==◌, ◌≡◌, ◌≢◌, sym, ap, inl, inr, subst, ltb, none, some,
  Option, arith, Bool-cases,
}
use internal_transfers_syste.Base.Action.{Result, ok, err}
use internal_transfers_syste.Models.{Error, is_retryable, DecimalLib, Exact, Transaction}
use internal_transfers_syste.Interfaces.Ledger.{Ledger}
use internal_transfers_syste.Service.Transfer.{TransferServiceConfig}
use internal_transfers_syste.Service.Session.{Order, rank, beginning}
use internal_transfers_syste.Concurrent.{SessionPc}
use internal_transfers_syste.Concurrent.Family.{
  eq_of_test, ne_of_test, update_at, update_at_ne, update_at_self,
}
use internal_transfers_syste.Concurrent.Termination.{Move-rank}
use internal_transfers_syste.Concurrent.Clients.{
  ClientPc, pausing, attempting, answered, next_round, after_attempt, attempt_of, placed, Clients,
  all_new, ClientStep, waited, cancelled, called, attempted, ClientReach, begun, then_client,
}
use internal_transfers_syste.Concurrent.Clients.Rounds.{
  R, Rounds, AllRounds, other_client, ClientReach-AllRounds,
}

-- The sum of the values below `n`.
abbrev pub sum_to : ℕ → (ℕ → ℕ) → ℕ
sum_to zero f = 0
sum_to (suc n) f = sum_to n f + f n

sum_to-≤ : (n : ℕ) (f g : ℕ → ℕ) → ((j : ℕ) → j < n → g j ≤ f j) → sum_to n g ≤ sum_to n f
sum_to-≤ zero f g h = omega arith
sum_to-≤ (suc n) f g h =
    let rest = sum_to-≤ n f g (λ j b. h j (omega arith)) in
    let last = h n (omega arith) in omega arith

sum_to-< :
    (n i : ℕ) (f g : ℕ → ℕ)
    → i < n
    → suc (g i) ≤ f i
    → ((j : ℕ) → j ≢ i → g j ≤ f j)
    → suc (sum_to n g) ≤ sum_to n f
sum_to-< zero i f g b less h = omega arith
sum_to-< (suc n) i f g b less h = elim (Bool-cases (n == i)) [
  | inl last ↦
      let e : i ≡ n = eq_of_test i n last in
      let here : suc (g n) ≤ f n = subst (λ k. suc (g k) ≤ f k) e less in
      let rest = sum_to-≤ n f g (λ j below. h j (λ s. omega arith)) in omega arith
  | inr earlier ↦
      let ne = ne_of_test i n earlier in
      let rest = sum_to-< n i f g (omega arith) less h in
      let last = h n (λ s. ne (sym s)) in omega arith
]

sum_to-bound : (n b : ℕ) (f : ℕ → ℕ) → ((j : ℕ) → f j ≤ b) → sum_to n f ≤ n * b
sum_to-bound zero b f h = omega arith
sum_to-bound (suc n) b f h = let rest = sum_to-bound n b f h in let last = h n in omega arith

module _ (config : TransferServiceConfig) {D : DecimalLib} (X : Exact D) where
  -- The steps that client `i` has left, at most: for each round the pause, the eight calls of a session
  -- and the look at its answer.
  abbrev pub steps_left : ℕ → (ℕ → SessionPc X) → ClientPc D → ℕ
  steps_left i pc (pausing k) = 10 * (R config - k)
  steps_left i pc (attempting k) = 10 * (R config - suc k) + (rank (pc (attempt_of config i k)) + 1)
  steps_left i pc (answered r) = 0

  abbrev pub all_left : Clients X → ℕ → ℕ
  all_left c i = steps_left i c.system.pc (c.at i)

  next_round-left :
      (i k : ℕ) (pc : ℕ → SessionPc X) (last_err : Option Error)
      → steps_left i pc (next_round config k last_err) ≤ 10 * (R config - k)
  next_round-left i k pc last_err = elim (Bool-cases (ltb k (R config))) [
    | inl more ↦ rw more (omega arith)
    | inr over ↦ rw over (omega arith)
  ]

  after_attempt-left :
      (i k : ℕ) (pc : ℕ → SessionPc X) (r : Result Error (Transaction D))
      → suc (steps_left i pc (after_attempt config k r)) ≤ steps_left i pc (attempting k)
  after_attempt-left i k pc (ok t) = omega arith
  after_attempt-left i k pc (err e) = elim (Bool-cases (is_retryable (some e))) [
    | inl again ↦ let next = next_round-left i (suc k) pc (some e) in rw again (omega arith)
    | inr final ↦ rw final (omega arith)
  ]

  module _ (order : ℕ → Order D) where
    abbrev pub client_of : {c d : Clients X} → ClientStep X config order c d → ℕ
    client_of (waited i k e) = i
    client_of (cancelled i k f e) = i
    client_of (called i k e m) = i
    client_of (attempted i k r e done) = i

    at_fewer :
        (c : Clients X) (i : ℕ) (q old : ClientPc D)
        → c.at i ≡ old
        → suc (steps_left i c.system.pc q) ≤ steps_left i c.system.pc old
        → suc (steps_left i c.system.pc (update_at i q c.at i)) ≤ all_left c i
    at_fewer c i q old e less =
        let now : steps_left i c.system.pc (update_at i q c.at i) ≡ steps_left i c.system.pc q =
          ap (steps_left i c.system.pc) (update_at_self i q c.at) in
        let was : all_left c i ≡ steps_left i c.system.pc old = ap (steps_left i c.system.pc) e in
        omega arith

    -- The step leaves its client fewer.
    ClientStep-fewer :
        {c d : Clients X} (s : ClientStep X config order c d)
        → AllRounds config X c
        → suc (all_left d (client_of s)) ≤ all_left c (client_of s)
    ClientStep-fewer {c} (waited i k e) all =
        let (below, _, new) = subst (Rounds config X i c.system.pc) e (all i) in
        let fresh : rank (c.system.pc (attempt_of config i k)) ≡ 8 =
          ap rank (new k (omega arith) below) in
        at_fewer c i (attempting k) (pausing k) e (omega arith)
    ClientStep-fewer {c} (cancelled i k f e) all =
        let (below, _, _) = subst (Rounds config X i c.system.pc) e (all i) in
        at_fewer c i (answered (err f)) (pausing (suc k)) e (omega arith)
    ClientStep-fewer {c} (called i k {p} {db'} e m) all =
        let pc' : ℕ → SessionPc X = update_at (attempt_of config i k) p c.system.pc in
        let now : steps_left i pc' (c.at i) ≡ steps_left i pc' (attempting k) =
          ap (steps_left i pc') e in
        let was : all_left c i ≡ steps_left i c.system.pc (attempting k) =
          ap (steps_left i c.system.pc) e in
        let self : rank (pc' (attempt_of config i k)) ≡ rank p =
          ap rank (update_at_self (attempt_of config i k) p c.system.pc) in
        let less = Move-rank X (placed config order) m in omega arith
    ClientStep-fewer {c} (attempted i k r e done) all =
        at_fewer c i (after_attempt config k r) (attempting k) e
          (after_attempt-left i k c.system.pc r)

    at_same :
        (c : Clients X) (i j : ℕ) (q : ClientPc D)
        → j ≢ i
        → steps_left j c.system.pc (update_at i q c.at j) ≤ all_left c j
    at_same c i j q ne =
        let same : steps_left j c.system.pc (update_at i q c.at j) ≡ all_left c j =
          ap (steps_left j c.system.pc) (update_at_ne i j q c.at ne) in
        omega arith

    called_same :
        (pc pc' : ℕ → SessionPc X) (j : ℕ) (q : ClientPc D)
        → Rounds config X j pc q
        → ((n : ℕ) → n < R config → pc' (attempt_of config j n) ≡ pc (attempt_of config j n))
        → steps_left j pc' q ≤ steps_left j pc q
    called_same pc pc' j (pausing k) _ same = omega arith
    called_same pc pc' j (attempting k) (below, _, _) same =
        let e = ap rank (same k below) in omega arith
    called_same pc pc' j (answered r) _ same = omega arith

    -- The step leaves every other client as many.
    ClientStep-others :
        {c d : Clients X} (s : ClientStep X config order c d)
        → AllRounds config X c
        → (j : ℕ) → j ≢ client_of s
        → all_left d j ≤ all_left c j
    ClientStep-others {c} (waited i k e) all j ne = at_same c i j (attempting k) ne
    ClientStep-others {c} (cancelled i k f e) all j ne = at_same c i j (answered (err f)) ne
    ClientStep-others {c} (called i k {p} e m) all j ne =
        let mine : Rounds config X i c.system.pc (attempting k) =
          subst (Rounds config X i c.system.pc) e (all i) in
        called_same c.system.pc (update_at (attempt_of config i k) p c.system.pc) j (c.at j) (all j)
          (λ n below. update_at_ne _ _ p c.system.pc (other_client config j i n k below mine.0 ne))
    ClientStep-others {c} (attempted i k r e done) all j ne =
        at_same c i j (after_attempt config k r) ne

    module _ (n : ℕ) where
      -- A run of `k` steps by the clients below `n`, in any order.
      pub data ClientRun (L : Ledger X.Quantity) : ℕ → Clients X → Type 0 where
        no_steps : ClientRun L 0 (all_new X config order L)
        one_step :
            {k : ℕ} {c d : Clients X}
            → ClientRun L k c
            → (s : ClientStep X config order c d) → client_of s < n
            → ClientRun L (suc k) d

      pub run_reaches :
          {L : Ledger X.Quantity} {k : ℕ} {c : Clients X}
          → ClientRun L k c
          → ClientReach X config order L c
      run_reaches no_steps = begun
      run_reaches (one_step before s _) = then_client (run_reaches before) s

      -- Of `n` calls of `Transfer` at once, however their steps are interleaved and whatever the errors,
      -- the steps so far and those that are still left to them are together at most ten for each round of
      -- each call: the pause, the eight calls of the round's session, and the look at its answer.
      pub ClientRun-left :
          (L : Ledger X.Quantity) {k : ℕ} {c : Clients X}
          → ClientRun L k c
          → k + sum_to n (all_left c) ≤ n * (10 * R config)
      ClientRun-left L no_steps =
          let bound =
            sum_to-bound n (10 * R config) (all_left (all_new X config order L))
              (λ j. let own = next_round-left j 0 (λ _. beginning) none in omega arith) in
          omega arith
      ClientRun-left L (one_step {c} {d} before s below) =
          let ih = ClientRun-left L before in
          let all = ClientReach-AllRounds config X order (run_reaches before) in
          let less =
            sum_to-< n (client_of s) (all_left c) (all_left d) below (ClientStep-fewer s all)
              (ClientStep-others s all) in
          omega arith
