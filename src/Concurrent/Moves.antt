-- ===== src/Concurrent/Moves.antt =====
-- What the move of one session leaves to the others.
use mathlib.Core.Option.{some-injective}
use internal_transfers_syste.Base.{
  ℕ, ◌≡◌, refl, sym, ◌∙◌, ap, subst, ◌≢◌, inl, inr, Option, none, some, arith,
}
use internal_transfers_syste.Base.Int.{ℤ}
use internal_transfers_syste.Base.Action.{Result}
use internal_transfers_syste.Models.{Error, DecimalLib, Exact, Account, Transaction}
use internal_transfers_syste.Interfaces.Ledger.{Ledger, update, update_ne, set_balance, add_entry}
use internal_transfers_syste.Interfaces.Contract.{entry_of}
use internal_transfers_syste.Service.Session.{Order}
use internal_transfers_syste.Concurrent.{
  SessionPc, Database, release, end_tx, view, IsFree, begins, no_begin, Locks, granted, missing,
  no_lock, Writes, written, not_written, Inserts, inserted, not_inserted, Commits, commits,
  discards, answer_lost, Move, begin_tx, lock_first, lock_second, debit, credit, write_record,
  commit, roll_back,
}
use internal_transfers_syste.Concurrent.Family.{update_at, update_at_ne}
use internal_transfers_syste.Concurrent.Knows.{Holds, debited, recorded, Knows, Frame}

module _ {D : DecimalLib} (X : Exact D) where
  open X use {Quantity, value, origin, lt}

  module _ (i j : ℕ) (ne : i ≢ j) (db : Database X) where
    -- The owner of a row is not a session that finds it free.
    not_free : (x : ℤ) → IsFree X i db x → db.owner x ≢ some j
    not_free x (inl free) owned = cc
    not_free x (inr mine) owned = ne (some-injective _ _ (sym mine ∙ owned))

    -- A session that takes a free row leaves to the others theirs.
    own_taken :
        (x : ℤ) → IsFree X i db x → (y : ℤ) → db.owner y ≡ some j → update x i db.owner y ≡ some j
    own_taken x free y owned =
        update_ne x y i db.owner (λ e. not_free x free (subst (λ z. db.owner z ≡ some j) e owned))
        ∙ owned

    own_released : (o : Option ℕ) → o ≡ some j → release X i o ≡ some j
    own_released none h = cc
    own_released (some k) h =
        let other : k ≢ i = λ e. ne (sym e ∙ some-injective _ _ h) in ground arith

    kept_at : (f : Ledger Quantity → Ledger Quantity) → update_at i f db.changes j ≡ db.changes j
    kept_at f = update_at_ne i j f db.changes (λ e. ne (sym e))

    module _ (o : Order D) where
      ended_Frame :
          (M : Ledger Quantity)
          → ((x : ℤ) → db.owner x ≡ some j → M.balances x ≡ db.ledger.balances x)
          → Frame X o j db (end_tx X i (record db { ledger = M }))
      ended_Frame M h = record {
        own = λ x. own_released (db.owner x);
        same = h;
        kept = kept_at (λ L. L);
      }

      Locks-Frame :
          {x : ℤ} {r : Result Error (Account D)} {db' : Database X}
          → Locks X i db x r db'
          → Frame X o j db db'
      Locks-Frame (granted a free _ _) = record {
        own = own_taken _ free;
        same = λ y _. refl;
        kept = refl;
      }
      Locks-Frame (missing _) = record { own = λ x h. h; same = λ y _. refl; kept = refl }
      Locks-Frame (no_lock _) = record { own = λ x h. h; same = λ y _. refl; kept = refl }

      begun_Frame : Frame X o j db (record db { changes = update_at i (λ L. L) db.changes })
      begun_Frame = record { own = λ x h. h; same = λ y _. refl; kept = kept_at (λ L. L) }

      Writes-Frame :
          {x : ℤ} {d : D.Decimal} {r : Result Error (Unit {0})} {db' : Database X}
          → Writes X i db x d r db'
          → Frame X o j db db'
      Writes-Frame {x} {d} (written q free _ _) = record {
        own = own_taken _ free;
        same = λ y _. refl;
        kept = kept_at (λ L. set_balance x (value d) (db.changes i L));
      }
      Writes-Frame (not_written _) = record { own = λ x h. h; same = λ y _. refl; kept = refl }

      Inserts-Frame :
          {t : Transaction D} {r : Result Error (Transaction D)} {db' : Database X}
          → Inserts X i db t r db'
          → Frame X o j db db'
      Inserts-Frame (inserted u _ _ _) = record {
        own = λ x h. h;
        same = λ y _. refl;
        kept = kept_at (λ L. add_entry (entry_of X u) (db.changes i L));
      }
      Inserts-Frame (not_inserted _) = record { own = λ x h. h; same = λ y _. refl; kept = refl }

      -- Only rows that the committing session has locked differ between its view and the ledger.
      view_others :
          (p : Order D) {s d : Account D} (t : Transaction D)
          → Holds X p i db s d
          → db.changes i ≡ recorded X p i t s d
          → (x : ℤ) → db.owner x ≡ some j
          → (view X i db).balances x ≡ db.ledger.balances x
      view_others p {s} {d} t h now x owned =
          ap (λ f. (f db.ledger).balances x) now
          ∙ update_ne d.account_id x (value (D.add d.balance p.amount))
              ((debited X p i s db.ledger).balances)
              (not_mine d.account_id (ap db.owner h.is_dest ∙ h.owns_dest))
          ∙ update_ne s.account_id x (value (D.sub s.balance p.amount)) db.ledger.balances
              (not_mine s.account_id (ap db.owner h.is_source ∙ h.owns_source))
        where
          not_mine : (y : ℤ) → db.owner y ≡ some i → x ≢ y
          not_mine y mine e = ne (some-injective _ _ (sym mine ∙ sym (ap db.owner e) ∙ owned))

      Commits-Frame :
          {r : Result Error (Unit {0})} {db' : Database X}
          → ((x : ℤ) → db.owner x ≡ some j → (view X i db).balances x ≡ db.ledger.balances x)
          → Commits X i db r db'
          → Frame X o j db db'
      Commits-Frame h commits = ended_Frame (view X i db) h
      Commits-Frame h (discards _) = ended_Frame db.ledger (λ x _. refl)
      Commits-Frame h (answer_lost _) = ended_Frame (view X i db) h

  -- What another session knows, and what it owns, outlasts the move.
  pub Move-Frame :
      (order : ℕ → Order D) (i j : ℕ) (o : Order D) {db db' : Database X} {p p' : SessionPc X}
      → i ≢ j
      → Move X order i db p p' db'
      → Knows X (order i) i p db
      → Frame X o j db db'
  Move-Frame order i j o {db} ne (begin_tx begins) h = begun_Frame i j ne db o
  Move-Frame order i j o {db} ne (begin_tx (no_begin _)) h = record {
    own = λ x h. h;
    same = λ y _. refl;
    kept = refl;
  }
  Move-Frame order i j o {db} ne (lock_first m) h = Locks-Frame i j ne db o m
  Move-Frame order i j o {db} ne (lock_second m) h = Locks-Frame i j ne db o m
  Move-Frame order i j o {db} ne (debit m) h = Writes-Frame i j ne db o m
  Move-Frame order i j o {db} ne (credit m) h = Writes-Frame i j ne db o m
  Move-Frame order i j o {db} ne (write_record m) h = Inserts-Frame i j ne db o m
  Move-Frame order i j o {db} ne (commit {t} m) (s, d, holds, now, _, _, _) =
      Commits-Frame i j ne db o (view_others i j ne db o (order i) t holds now) m
  Move-Frame order i j o {db} ne roll_back h = ended_Frame i j ne db o db.ledger (λ x _. refl)
