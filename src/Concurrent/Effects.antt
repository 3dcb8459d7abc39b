-- ===== src/Concurrent/Effects.antt =====
-- What one move does to the committed ledger.
use internal_transfers_syste.Base.{ℕ, ◌≡◌, refl, sym, ◌∙◌, ap, ◌⊎◌, inl, inr, Bool-cases, ◌∷◌}
use internal_transfers_syste.Base.Int.{ℤ}
use internal_transfers_syste.Base.Action.{Result, ok, err}
use internal_transfers_syste.Models.{Error, DecimalLib, Exact, Account, Transaction}
use internal_transfers_syste.Models.Money.Laws.{lt-sub-origin}
use internal_transfers_syste.Interfaces.Ledger.{Ledger, set_balance, add_entry}
use internal_transfers_syste.Interfaces.Contract.{entry_of}
use internal_transfers_syste.Service.Transfer.{source_of, destination_of}
use internal_transfers_syste.Service.Transfer.Spec.{Done}
use internal_transfers_syste.Service.Session.{Order, first_id, checked}
use internal_transfers_syste.Concurrent.{
  SessionPc, Database, view, begins, no_begin, granted, missing, no_lock, Writes, written,
  not_written, inserted, not_inserted, commits, discards, answer_lost, Move, begin_tx, lock_first,
  lock_second, debit, credit, write_record, commit, roll_back, IsLossy,
}
use internal_transfers_syste.Concurrent.Knows.{Holds, recorded, Knows}
use internal_transfers_syste.Concurrent.History.{History, undecided, fate, Occurs, Settled}

module _ {D : DecimalLib} (X : Exact D) where
  open X use {Quantity, value, plus}

  -- A write is seen by its own transaction only.
  writes_nothing :
      (i : ℕ) {db : Database X} {x : ℤ} {a : D.Decimal} {r : Result Error (Unit {0})}
      {db' : Database X}
      → Writes X i db x a r db'
      → db'.ledger ≡ db.ledger
  writes_nothing i (written _ _ _ _) = refl
  writes_nothing i (not_written _) = refl

  -- The changes of a transaction that is ready to commit are the transfer.
  recorded-Done :
      (o : Order D) (i : ℕ) (db : Database X) (s d : Account D) (t : Transaction D)
      → Holds X o i db s d
      → db.changes i ≡ recorded X o i t s d
      → t.source_account_id ≡ o.source_id
      → t.destination_account_id ≡ o.dest_id
      → t.amount ≡ o.amount
      → Done X db.ledger o.source_id o.dest_id o.amount t (view X i db)
  recorded-Done o i db s d t h now from to all = (
    record {
      before = value s.balance;
      after = value (D.sub s.balance o.amount);
      other = value d.balance;
      held = ap db.ledger.balances from ∙ h.source_balance;
      known = ap db.ledger.balances to ∙ h.dest_balance;
      paid =
          ap (λ a. plus (value (D.sub s.balance o.amount)) (value a)) all
          ∙ X.value-sub s.balance o.amount;
      covered = lt-sub-origin X s.balance o.amount ∙ h.enough;
      result = ap (λ f. f db.ledger) now ∙ (λ k. add_entry (entry_of X t) (
          set_balance ((h.is_dest ∙ sym to) k)
            ((X.value-add d.balance o.amount ∙ ap (λ a. plus (value d.balance) (value a)) (sym all))
              k)
            (set_balance ((h.is_source ∙ sym from) k) (value (D.sub s.balance o.amount))
              db.ledger)));
    },
    from,
    to,
    all,
  )

  module _ (order : ℕ → Order D) (i : ℕ) (h : History D) (Lost : Type 0) where
    -- Nothing is committed, or the transfer that the session was asked for is, and for the first time.
    abbrev pub Effect : Ledger Quantity → Ledger Quantity → SessionPc X → Type 0
    Effect L M p =
        ((M ≡ L) × Settled Lost i h (fate p))
        ⊎ ((t : Transaction D) × Done X L (order i).source_id (order i).dest_id (order i).amount t M
            × ((u : Transaction D) → ¬ (Occurs i u h))
            × Settled Lost i ((i, t) ∷ h) (fate p))

    checked-Settled :
        (tx : Unit {0}) (s d : Account D)
        → Settled Lost i h undecided
        → Settled Lost i h (fate (checked (order i) tx s d))
    checked-Settled tx s d q = elim (Bool-cases (D.less_than s.balance (order i).amount)) [
      | inl short ↦ rw short (inr q)
      | inr enough ↦ rw enough q
    ]

    pub Move-Effect :
        {db db' : Database X} {p p' : SessionPc X} (m : Move X order i db p p' db')
        → (IsLossy X order m → Lost)
        → Knows X (order i) i p db
        → Settled Lost i h (fate p)
        → Effect db.ledger db'.ledger p'
    Move-Effect (begin_tx begins) lossy k q = inl (refl, q)
    Move-Effect (begin_tx (no_begin _)) lossy k q = inl (refl, inr q)
    Move-Effect (lock_first (granted _ _ _ _)) lossy k q = inl (refl, q)
    Move-Effect (lock_first (missing _)) lossy k q = inl (refl, inr q)
    Move-Effect (lock_first (no_lock _)) lossy k q = inl (refl, inr q)
    Move-Effect (lock_second {tx} {a} (granted b _ _ _)) lossy k q = inl (
      refl,
      checked-Settled tx (source_of (first_id (order i)) (order i).source_id a b)
          (destination_of (first_id (order i)) (order i).source_id a b) q,
    )
    Move-Effect (lock_second (missing _)) lossy k q = inl (refl, inr q)
    Move-Effect (lock_second (no_lock _)) lossy k q = inl (refl, inr q)
    Move-Effect (debit {r = ok _} m) lossy k q = inl (writes_nothing i m, q)
    Move-Effect (debit {r = err _} m) lossy k q = inl (writes_nothing i m, inr q)
    Move-Effect (credit {r = ok _} m) lossy k q = inl (writes_nothing i m, q)
    Move-Effect (credit {r = err _} m) lossy k q = inl (writes_nothing i m, inr q)
    Move-Effect (write_record (inserted _ _ _ _)) lossy k q = inl (refl, q)
    Move-Effect (write_record (not_inserted _)) lossy k q = inl (refl, inr q)
    Move-Effect {db} (commit {t} commits) lossy (s, d, holds, now, from, to, all) q =
        inr (t, recorded-Done (order i) i db s d t holds now from to all, q, inl (refl, refl))
    Move-Effect (commit (discards _)) lossy k q = inl (refl, inr q)
    Move-Effect {db} (commit {t} (answer_lost _)) lossy (s, d, holds, now, from, to, all) q =
        inr (t, recorded-Done (order i) i db s d t holds now from to all, q, inl (lossy tt))
    Move-Effect (roll_back) lossy k q = inl (refl, q)
