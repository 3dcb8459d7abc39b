-- ===== src/Concurrent/Termination.antt =====
-- How many calls the sessions of `executeTransfer` have left, in any interleaving.
use internal_transfers_syste.Base.{
  ℕ, zero, suc, ◌+◌, ◌*◌, ◌≤◌, ◌<◌, ◌≡◌, refl, sym, ◌∙◌, ap, inl, inr, ◌==◌, arith, Bool-cases,
}
use internal_transfers_syste.Models.{DecimalLib, Exact}
use internal_transfers_syste.Interfaces.Ledger.{Ledger}
use internal_transfers_syste.Service.Session.{Order, rank}
use internal_transfers_syste.Service.Session.Rank.{
  rank-after_begin, rank-after_first, rank-after_second, rank-after_debit, rank-after_credit,
  rank-after_record, rank-after_commit,
}
use internal_transfers_syste.Concurrent.{
  SessionPc, Database, Move, begin_tx, lock_first, lock_second, debit, credit, write_record, commit,
  roll_back, System, start,
}
use internal_transfers_syste.Concurrent.Family.{
  eq_of_test, ne_of_test, update_at, update_at_ne, update_at_self,
}

module _ {D : DecimalLib} (X : Exact D) where
  -- The calls that the sessions below `n` have left, at most.
  abbrev pub calls_left : ℕ → (ℕ → SessionPc X) → ℕ
  calls_left zero pc = 0
  calls_left (suc n) pc = calls_left n pc + rank (pc n)

  calls_left-beyond :
      (n i : ℕ) (p : SessionPc X) (pc : ℕ → SessionPc X)
      → n ≤ i
      → calls_left n (update_at i p pc) ≡ calls_left n pc
  calls_left-beyond zero i p pc h = refl
  calls_left-beyond (suc n) i p pc h =
      λ k. calls_left-beyond n i p pc (omega arith) k + rank (update_at_ne i n p pc (omega arith) k)

  calls_left-update :
      (n i : ℕ) (p : SessionPc X) (pc : ℕ → SessionPc X)
      → i < n
      → calls_left n (update_at i p pc) + rank (pc i) ≡ calls_left n pc + rank p
  calls_left-update zero i p pc h = omega arith
  calls_left-update (suc n) i p pc h = elim (Bool-cases (n == i)) [
    | inl last ↦
        let e : i ≡ n = eq_of_test i n last in
        let same : rank (pc i) ≡ rank (pc n) = ap (λ k. rank (pc k)) e in
        let now : rank (update_at i p pc n) ≡ rank p =
          ap (λ k. rank (update_at i p pc k)) (sym e) ∙ ap rank (update_at_self i p pc) in
        let others = calls_left-beyond n i p pc (omega arith) in omega arith
    | inr not_last ↦
        let ne = ne_of_test i n not_last in
        let kept : rank (update_at i p pc n) ≡ rank (pc n) =
          ap rank (update_at_ne i n p pc (λ e. ne (sym e))) in
        let before = calls_left-update n i p pc (omega arith) in omega arith
  ]

  module _ (order : ℕ → Order D) where
    fewer : {a b : ℕ} → a ≤ b → suc a ≤ suc b
    fewer h = omega arith

    -- Every call leaves its session fewer.
    pub Move-rank :
        {i : ℕ} {db db' : Database X} {p p' : SessionPc X}
        → Move X order i db p p' db'
        → suc (rank p') ≤ rank p
    Move-rank {i} (begin_tx {r} m) = fewer (rank-after_begin (order i) r)
    Move-rank {i} (lock_first {tx} {r} m) = fewer (rank-after_first (order i) tx r)
    Move-rank {i} (lock_second {tx} {a} {r} m) = fewer (rank-after_second (order i) tx a r)
    Move-rank {i} (debit {tx} {d} {r} m) = fewer (rank-after_debit (order i) tx d r)
    Move-rank {i} (credit {tx} {r} m) = fewer (rank-after_credit (order i) tx r)
    Move-rank {i} (write_record {tx} {r} m) = fewer (rank-after_record (order i) tx r)
    Move-rank {i} (commit {tx} {t} {r} m) = fewer (rank-after_commit (order i) tx t r)
    Move-rank (roll_back) = omega arith

    module _ (n : ℕ) where
      -- A run of `k` calls by the sessions below `n`, in any order.
      pub data Run (L : Ledger X.Quantity) : ℕ → System X → Type 0 where
        no_calls : Run L 0 (start X L)
        one_call :
            (i : ℕ) {k : ℕ} {s : System X} {p : SessionPc X} {db' : Database X}
            → Run L k s
            → i < n
            → Move X order i s.db (s.pc i) p db'
            → Run L (suc k) (record { db = db'; pc = update_at i p s.pc })

      calls_left-start : (m : ℕ) (L : Ledger X.Quantity) → calls_left m ((start X L).pc) ≡ 8 * m
      calls_left-start zero L = refl
      calls_left-start (suc m) L = let before = calls_left-start m L in omega arith

      -- Of `n` sessions, whatever the order of their calls and whatever the errors, all calls together and
      -- the calls that are still left to them are at most eight for each session.
      pub Run-calls_left :
          (L : Ledger X.Quantity) {k : ℕ} {s : System X} → Run L k s → k + calls_left n s.pc ≤ 8 * n
      Run-calls_left L no_calls = let e = calls_left-start n L in omega arith
      Run-calls_left L (one_call i {s} {p} before h m) =
          let ih = Run-calls_left L before in
          let less = Move-rank m in let sum = calls_left-update n i p s.pc h in omega arith
