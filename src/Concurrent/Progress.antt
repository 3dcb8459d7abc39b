-- ===== src/Concurrent/Progress.antt =====
-- The moves of the sessions at which the database makes no error of its own.
use internal_transfers_syste.Base.{
  ◌⊎◌, ℕ, ◌≡◌, refl, sym, ◌∙◌, ap, ◌≢◌, inl, inr, some, true, false, Option-cases,
}
use internal_transfers_syste.Base.Int.{ℤ, IsInt64}
use internal_transfers_syste.Base.Action.{Result}
use internal_transfers_syste.Models.{Error, DecimalLib, Exact, Account, Transaction, zero_time}
use internal_transfers_syste.Models.Money.Laws.{lt-sub-origin, plus-nonneg}
use internal_transfers_syste.Interfaces.Ledger.{Ledger, update_ne}
use internal_transfers_syste.Service.Transfer.{new_transaction}
use internal_transfers_syste.Service.Transfer.Spec.{IsSolvent}
use internal_transfers_syste.Service.Session.{
  Order, beginning, locking_first, locking_second, debiting, crediting, recording, committing,
  rolling_back, returned, first_id, second_id,
}
use internal_transfers_syste.Concurrent.{
  SessionPc, Database, view, IsFree, Begins, begins, no_begin, Locks, granted, missing, no_lock,
  Writes, written, not_written, Inserts, inserted, not_inserted, Commits, commits, discards,
  answer_lost, Move, begin_tx, lock_first, lock_second, debit, credit, write_record, commit,
  roll_back, System, Reach,
}
use internal_transfers_syste.Concurrent.Knows.{Holds, debited, Knows}
use internal_transfers_syste.Concurrent.Serial.{Reach-AllKnow, Reach-IsSolvent}
use internal_transfers_syste.Concurrent.Waiting.{IsOpen, HoldsRow, Ready, next_row}
use internal_transfers_syste.Concurrent.Deadlock.{Reach-Ready}

module _ {D : DecimalLib} (X : Exact D) where
  open X use {Quantity, value, origin, lt, plus}

  module _ (i : ℕ) {db : Database X} where
    -- The database did what it was asked, or said that the row is not there.
    abbrev pub DidBegin :
        {r : Result Error (Unit {0})} {db' : Database X} → Begins X i db r db' → Type 0
    DidBegin begins = Unit
    DidBegin (no_begin _) = ⊥

    abbrev pub DidLock :
        {x : ℤ} {r : Result Error (Account D)} {db' : Database X} → Locks X i db x r db' → Type 0
    DidLock (no_lock _) = ⊥
    DidLock (granted _ _ _ _) = Unit
    DidLock (missing _) = Unit

    abbrev pub DidWrite :
        {x : ℤ} {a : D.Decimal} {r : Result Error (Unit {0})} {db' : Database X}
        → Writes X i db x a r db'
        → Type 0
    DidWrite (written _ _ _ _) = Unit
    DidWrite (not_written _) = ⊥

    abbrev pub DidInsert :
        {t : Transaction D} {r : Result Error (Transaction D)} {db' : Database X}
        → Inserts X i db t r db'
        → Type 0
    DidInsert (inserted _ _ _ _) = Unit
    DidInsert (not_inserted _) = ⊥

    abbrev pub DidCommit :
        {r : Result Error (Unit {0})} {db' : Database X} → Commits X i db r db' → Type 0
    DidCommit commits = Unit
    DidCommit (discards _) = ⊥
    DidCommit (answer_lost _) = ⊥

  module _ (order : ℕ → Order D) (i : ℕ) {db : Database X} where
    abbrev pub IsFaultless :
        {p p' : SessionPc X} {db' : Database X} → Move X order i db p p' db' → Type 0
    IsFaultless (begin_tx m) = DidBegin i m
    IsFaultless (lock_first m) = DidLock i m
    IsFaultless (lock_second m) = DidLock i m
    IsFaultless (debit m) = DidWrite i m
    IsFaultless (credit m) = DidWrite i m
    IsFaultless (write_record m) = DidInsert i m
    IsFaultless (commit m) = DidCommit i m
    IsFaultless roll_back = Unit

  -- Session `i` has a move without an error of the database.
  pub record GoesOn (order : ℕ → Order D) (i : ℕ) (db : Database X) (p : SessionPc X) : Type 0 where
    pub next : SessionPc X
    pub after : Database X
    pub move : Move X order i db p next after
    pub faultless : IsFaultless order i move

  module _ (represent : (q : Quantity) → (b : D.Decimal) × (value b ≡ q)) where
    -- A free row is locked, or is not there.
    locks :
        (i : ℕ) (db : Database X) (x : ℤ)
        → IsFree X i db x
        → (r : Result Error (Account D)) × (db' : Database X) × (m : Locks X i db x r db') × DidLock
            i m
    locks i db x free = elim (Option-cases ((view X i db).balances x)) [
      | inl nothing ↦ (_, _, missing nothing, tt)
      | inr (q, there) ↦
          let (b, same) = represent q in
          let a : Account D = record {
            account_id = x;
            balance = b;
            created_at = zero_time;
            updated_at = zero_time;
          } in
          (_, _, granted a free refl (there ∙ ap some (sym same)), tt)
    ]

    module _ (order : ℕ → Order D) (i : ℕ) (db : Database X)
        (apart : (order i).source_id ≢ (order i).dest_id)
        (positive : lt origin (value (order i).amount) ≡ true)
        (solvent : IsSolvent X db.ledger) where
      -- The new balance of the destination is not below zero.
      credit_allowed :
          (s d : Account D)
          → Holds X (order i) i db s d
          → lt (value (D.add d.balance (order i).amount)) origin ≡ false
      credit_allowed s d holds =
          ap (λ q. lt q origin) (X.value-add d.balance (order i).amount)
          ∙ plus-nonneg X _ _ (solvent _ _ holds.dest_balance) positive

      -- The destination is still there after the source was debited.
      credit_there :
          (s d : Account D)
          → Holds X (order i) i db s d
          → db.changes i ≡ debited X (order i) i s
          → (view X i db).balances d.account_id ≡ some (value d.balance)
      credit_there s d holds now =
          ap (λ f. (f db.ledger).balances d.account_id) now
          ∙ update_ne s.account_id d.account_id (value (D.sub s.balance (order i).amount))
              db.ledger.balances (λ e. apart (sym holds.is_source ∙ sym e ∙ holds.is_dest))
          ∙ ap db.ledger.balances holds.is_dest
          ∙ holds.dest_balance

      goes_on :
          (p : SessionPc X)
          → Knows X (order i) i p db
          → IsOpen p
          → ((x : ℤ) → next_row (order i) p ≡ some x → IsFree X i db x)
          → GoesOn order i db p
      goes_on beginning k o free = record {
        next = _;
        after = _;
        move = begin_tx begins;
        faultless = tt;
      }
      goes_on (locking_first tx) k o free =
          let (r, db', m, did) = locks i db (first_id (order i)) (free _ refl) in
          record { next = _; after = db'; move = lock_first m; faultless = did }
      goes_on (locking_second tx a) k o free =
          let (r, db', m, did) = locks i db (second_id (order i)) (free _ refl) in
          record { next = _; after = db'; move = lock_second {a = a} m; faultless = did }
      goes_on (debiting tx s d) (holds, clean) o free = record {
        next = _;
        after = _;
        move = debit {s = s} {d = d} (
            written (value s.balance) (free _ refl)
              (ap (λ f. (f db.ledger).balances s.account_id) clean
                ∙ ap db.ledger.balances holds.is_source
                ∙ holds.source_balance)
              (lt-sub-origin X s.balance (order i).amount ∙ holds.enough));
        faultless = tt;
      }
      goes_on (crediting tx d) (s, holds, now) o free = record {
        next = _;
        after = _;
        move = credit {d = d} (
            written (value d.balance) (free _ refl) (credit_there s d holds now)
              (credit_allowed s d holds));
        faultless = tt;
      }
      goes_on (recording tx) k o free = record {
        next = _;
        after = _;
        move = write_record (
            inserted (new_transaction (order i).source_id (order i).dest_id (order i).amount) refl
              refl refl);
        faultless = tt;
      }
      goes_on (committing tx t) k o free = record {
        next = _;
        after = _;
        move = commit {t = t} commits;
        faultless = tt;
      }
      goes_on (rolling_back tx r) k o free = record {
        next = _;
        after = _;
        move = roll_back;
        faultless = tt;
      }
      goes_on (returned r) k o free = absurd o

    -- If every session is for two different accounts with ids of 64 bits and an amount above zero, the
    -- ledger is solvent before, and every quantity is the value of a decimal, then at every point of
    -- every interleaving at which some session has not returned, that session or one that holds a
    -- row has a move at which the database makes no error: it does what it is asked, or finds no row to
    -- lock.
    pub Reach-GoesOn :
        (order : ℕ → Order D) (L : Ledger Quantity)
        (apart : (i : ℕ) → (order i).source_id ≢ (order i).dest_id)
        (fits : (i : ℕ) → IsInt64 (order i).source_id × IsInt64 (order i).dest_id)
        (positive : (i : ℕ) → lt origin (value (order i).amount) ≡ true) (solvent : IsSolvent X L)
        {s : System X}
        → Reach X order L s
        → (i : ℕ) → IsOpen (s.pc i)
        → (k : ℕ) × ((k ≡ i) ⊎ HoldsRow X order s k)
          × IsOpen (s.pc k)
          × GoesOn order k s.db (s.pc k)
    Reach-GoesOn order L apart fits positive solvent {s} r i open_i =
        let ready : Ready X order i s = Reach-Ready X order apart fits L r i open_i in
        (
          ready.who,
          ready.in_the_way,
          ready.is_open,
          goes_on order ready.who s.db (apart ready.who) (positive ready.who)
              (Reach-IsSolvent X order L apart positive solvent r) (s.pc ready.who)
              ((Reach-AllKnow X order L apart r).0 ready.who) ready.is_open ready.finds_free,
        )
