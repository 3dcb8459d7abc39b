-- ===== src/Concurrent.antt =====
-- Many sessions of `executeTransfer` at once, each in a transaction of its own, over one database with
-- row locks. The sessions are those of Service.Session; what the database may answer is a relation, as
-- PostgreSQL documents READ COMMITTED and SELECT ... FOR UPDATE: a row has one owner at a time, a
-- statement sees what is committed and the transaction's own changes, and these become visible when it
-- commits. A session whose row has another owner waits: it has no move, unless an error ends its wait.
pub mod Family
pub mod Knows
pub mod Moves
pub mod Facts
pub mod History
pub mod Effects
pub mod Serial
pub mod Books
pub mod Sums
pub mod Agreement
pub mod Waiting
pub mod Release
pub mod Deadlock
pub mod Progress
pub mod Termination
pub mod Clients
use internal_transfers_syste.Base.{
  ℕ, ◌≡◌, ◌⊎◌, Option, none, some, false, List, [], ◌∷◌, ◌==◌, if◌then◌else◌,
}
use internal_transfers_syste.Base.Int.{ℤ}
use internal_transfers_syste.Base.Action.{Result, ok, err}
use internal_transfers_syste.Models.{
  Error, err_account_not_found, DecimalLib, Exact, Account, Transaction, Time,
}
use internal_transfers_syste.Interfaces.Ledger.{Ledger, update, set_balance, add_entry}
use internal_transfers_syste.Interfaces.Contract.{entry_of}
use internal_transfers_syste.Service.Transfer.{new_transaction}
use internal_transfers_syste.Service.Session.{
  Order, Pc, beginning, locking_first, locking_second, debiting, crediting, recording, committing,
  rolling_back, returned, first_id, second_id, after_begin, after_first, after_second, after_debit,
  after_credit, after_record, after_commit,
}
use Family.{update_at}

module _ {D : DecimalLib} (X : Exact D) where
  open X use {Quantity, value, origin, lt}

  abbrev pub SessionPc : Type 0
  SessionPc = Pc D (Unit {0})

  -- What is committed, the session that has locked a row, and what each open transaction has done.
  pub record Database : Type 0 where
    pub ledger : Ledger Quantity
    pub owner : ℤ → Option ℕ
    pub changes : ℕ → Ledger Quantity → Ledger Quantity

  module _ (i : ℕ) where
    abbrev pub release : Option ℕ → Option ℕ
    release none = none
    release (some k) = if k == i then none else some k

    -- The end of the transaction of session `i`: its rows are free, and its changes are gone.
    abbrev pub end_tx : Database → Database
    end_tx db = record db {
      owner = λ x. release (db.owner x);
      changes = update_at i (λ L. L) db.changes;
    }

    abbrev pub view : Database → Ledger Quantity
    view db = db.changes i db.ledger

    -- The row `x` is locked by no other session.
    abbrev pub IsFree : Database → ℤ → Type 0
    IsFree db x = (db.owner x ≡ none) ⊎ (db.owner x ≡ some i)

    module _ (db : Database) where
      pub data Begins : Result Error (Unit {0}) → Database → Type 0 where
        begins : Begins (ok tt) (record db { changes = update_at i (λ L. L) db.changes })
        no_begin : (e : Error) → Begins (err e) db

      -- `SELECT ... FOR UPDATE`
      pub data Locks (x : ℤ) : Result Error (Account D) → Database → Type 0 where
        granted :
            (a : Account D)
            → IsFree db x
            → a.account_id ≡ x
            → (view db).balances x ≡ some (value a.balance)
            → Locks x (ok a) (record db { owner = update x i db.owner })
        missing : (view db).balances x ≡ none → Locks x (err err_account_not_found) db
        no_lock : (e : Error) → Locks x (err e) db

      -- `UPDATE accounts`, under `CHECK (balance >= 0)`
      pub data Writes (x : ℤ) (d : D.Decimal) : Result Error (Unit {0}) → Database → Type 0 where
        written :
            (q : Quantity)
            → IsFree db x
            → (view db).balances x ≡ some q
            → lt (value d) origin ≡ false
            → Writes x d (ok tt) (record db {
              owner = update x i db.owner;
              changes = update_at i (λ L. set_balance x (value d) (db.changes i L)) db.changes;
            })
        not_written : (e : Error) → Writes x d (err e) db

      -- `INSERT INTO transactions`, which fills in the id and the time
      pub data Inserts (t : Transaction D) : Result Error (Transaction D) → Database → Type 0 where
        inserted :
            (u : Transaction D)
            → u.source_account_id ≡ t.source_account_id
            → u.destination_account_id ≡ t.destination_account_id
            → u.amount ≡ t.amount
            → Inserts t (ok u) (record db {
              changes = update_at i (λ L. add_entry (entry_of X u) (db.changes i L)) db.changes;
            })
        not_inserted : (e : Error) → Inserts t (err e) db

      -- The answer may be lost after the commit took effect.
      pub data Commits : Result Error (Unit {0}) → Database → Type 0 where
        commits : Commits (ok tt) (end_tx (record db { ledger = view db }))
        discards : (e : Error) → Commits (err e) (end_tx db)
        answer_lost : (e : Error) → Commits (err e) (end_tx (record db { ledger = view db }))

      -- The commit took effect, and its answer was lost.
      abbrev pub LosesAnswer :
          {r : Result Error (Unit {0})} {db' : Database} → Commits r db' → Type 0
      LosesAnswer commits = ⊥
      LosesAnswer (discards e) = ⊥
      LosesAnswer (answer_lost e) = Unit

  pub record System : Type 0 where
    pub db : Database
    pub pc : ℕ → SessionPc

  -- No session has begun, and no row is locked.
  abbrev pub start : Ledger Quantity → System
  start L = record {
    db = record { ledger = L; owner = λ x. none; changes = λ i M. M };
    pc = λ i. beginning;
  }

  module _ (order : ℕ → Order D) where
    -- One call of session `i`: where it leads, and what it leaves.
    pub data Move (i : ℕ) (db : Database) : SessionPc → SessionPc → Database → Type 0 where
      begin_tx :
          {r : Result Error (Unit {0})} {db' : Database}
          → Begins i db r db'
          → Move i db beginning (after_begin (order i) r) db'
      lock_first :
          {tx : Unit {0}} {r : Result Error (Account D)} {db' : Database}
          → Locks i db (first_id (order i)) r db'
          → Move i db (locking_first tx) (after_first (order i) tx r) db'
      lock_second :
          {tx : Unit {0}} {a : Account D} {r : Result Error (Account D)} {db' : Database}
          → Locks i db (second_id (order i)) r db'
          → Move i db (locking_second tx a) (after_second (order i) tx a r) db'
      debit :
          {tx : Unit {0}} {s d : Account D} {r : Result Error (Unit {0})} {db' : Database}
          → Writes i db s.account_id (D.sub s.balance (order i).amount) r db'
          → Move i db (debiting tx s d) (after_debit (order i) tx d r) db'
      credit :
          {tx : Unit {0}} {d : Account D} {r : Result Error (Unit {0})} {db' : Database}
          → Writes i db d.account_id (D.add d.balance (order i).amount) r db'
          → Move i db (crediting tx d) (after_credit (order i) tx r) db'
      write_record :
          {tx : Unit {0}} {r : Result Error (Transaction D)} {db' : Database}
          → Inserts i db
              (new_transaction (order i).source_id (order i).dest_id (order i).amount)
              r
              db'
          → Move i db (recording tx) (after_record (order i) tx r) db'
      commit :
          {tx : Unit {0}} {t : Transaction D} {r : Result Error (Unit {0})} {db' : Database}
          → Commits i db r db'
          → Move i db (committing tx t) (after_commit (order i) tx t r) db'
      roll_back :
          {tx : Unit {0}} {r : Result Error (Transaction D)}
          → Move i db (rolling_back tx r) (returned r) (end_tx i db)

    abbrev pub IsLossy :
        {i : ℕ} {db : Database} {p p' : SessionPc} {db' : Database} → Move i db p p' db' → Type 0
    IsLossy {i} {db} (commit m) = LosesAnswer i db m
    IsLossy (begin_tx m) = ⊥
    IsLossy (lock_first m) = ⊥
    IsLossy (lock_second m) = ⊥
    IsLossy (debit m) = ⊥
    IsLossy (credit m) = ⊥
    IsLossy (write_record m) = ⊥
    IsLossy (roll_back) = ⊥

    -- Any session moves.
    pub data Step (s : System) : System → Type 0 where
      session :
          (i : ℕ) {p : SessionPc} {db' : Database}
          → Move i s.db (s.pc i) p db'
          → Step s (record { db = db'; pc = update_at i p s.pc })

    -- What the sessions may lead to, in any interleaving.
    pub data Reach (L : Ledger Quantity) : System → Type 0 where
      here : Reach L (start L)
      then_step : {s t : System} → Reach L s → Step s t → Reach L t

    -- On the way, the commit of session `j` took effect and its answer was lost.
    abbrev pub Loses : {L : Ledger Quantity} (j : ℕ) {s : System} → Reach L s → Type 0
    Loses j here = ⊥
    Loses j (then_step before (session i m)) = Loses j before ⊎ ((i ≡ j) × IsLossy m)
