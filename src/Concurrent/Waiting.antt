-- ===== src/Concurrent/Waiting.antt =====
-- Which row a session asks for next, which rows it may hold, and what it is to wait.
use mathlib.Core.Option.{some-injective}
use internal_transfers_syste.Base.{
  ℕ, ◌≡◌, refl, ◌≢◌, ◌⊎◌, inl, inr, Option, none, some, arith, Bool-cases, ◌==◌,
}
use internal_transfers_syste.Base.Int.{ℤ, ◌==ℤ◌, ==ℤ_iff}
use internal_transfers_syste.Base.Action.{Result, ok, err}
use internal_transfers_syste.Models.{Error, DecimalLib, Exact, Account}
use internal_transfers_syste.Interfaces.Ledger.{update}
use internal_transfers_syste.Service.Transfer.{source_of, destination_of}
use internal_transfers_syste.Service.Session.{
  Order, Pc, beginning, locking_first, locking_second, debiting, crediting, returned, first_id,
  second_id, checked,
}
use internal_transfers_syste.Concurrent.{
  IsFree, SessionPc, Database, release, begins, no_begin, granted, missing, no_lock, written,
  not_written, Writes, Locks, inserted, not_inserted, commits, discards, answer_lost, Move,
  begin_tx, lock_first, lock_second, debit, credit, write_record, commit, roll_back, System,
}

module _ {D : DecimalLib} (o : Order D) where
  -- The row that the next call locks.
  abbrev pub next_row : Pc D (Unit {0}) → Option ℤ
  next_row (locking_first _) = some (first_id o)
  next_row (locking_second _ _) = some (second_id o)
  next_row (debiting _ s _) = some s.account_id
  next_row (crediting _ d) = some d.account_id
  next_row _ = none

  -- What is known of a row that the session has locked.
  abbrev pub MayHold : Pc D (Unit {0}) → ℤ → Type 0
  MayHold beginning x = ⊥
  MayHold (locking_first _) x = ⊥
  MayHold (locking_second _ _) x = x ≡ first_id o
  MayHold (returned _) x = ⊥
  MayHold _ x = Unit

abbrev pub IsOpen : {D : DecimalLib} → Pc D (Unit {0}) → Type 0
IsOpen (returned _) = ⊥
IsOpen _ = Unit

module _ {D : DecimalLib} (X : Exact D) (order : ℕ → Order D) where
  -- Session `j` asks for a row that another session has locked.
  pub record Waits (s : System X) (j : ℕ) : Type 0 where
    pub row : ℤ
    pub holder : ℕ
    pub asks : next_row (order j) (s.pc j) ≡ some row
    pub held : s.db.owner row ≡ some holder
    pub another : holder ≢ j

  -- If the next call of session `j` locks a row, no other session has it.
  abbrev pub FindsFree : System X → ℕ → Type 0
  FindsFree s j = (x : ℤ) → next_row (order j) (s.pc j) ≡ some x → IsFree X j s.db x

  abbrev pub HoldsRow : System X → ℕ → Type 0
  HoldsRow s k = (x : ℤ) × (s.db.owner x ≡ some k)

  -- A session that has not returned and need not wait: session `i` itself, or one that holds a row.
  pub record Ready (i : ℕ) (s : System X) : Type 0 where
    pub who : ℕ
    pub in_the_way : (who ≡ i) ⊎ HoldsRow s who
    pub is_open : IsOpen (s.pc who)
    pub finds_free : FindsFree s who

  module _ (i : ℕ) where
    update_inverse :
        (owner : ℤ → Option ℕ) (x y : ℤ) (k : ℕ)
        → update x i owner y ≡ some k
        → ((y ≡ x) × (i ≡ k)) ⊎ (owner y ≡ some k)
    update_inverse owner x y k h = elim (Bool-cases (y ==ℤ x)) [
      | inl same ↦ inl ((==ℤ_iff y x).0 same, some-injective _ _ (rw same at h))
      | inr other ↦ inr (rw other at h)
    ]

    release_inverse : (o : Option ℕ) (k : ℕ) → release X i o ≡ some k → (o ≡ some k) × (k ≢ i)
    release_inverse none k h = cc
    release_inverse (some j) k h = elim (Bool-cases (j == i)) [
      | inl same ↦ cc (rw same at h)
      | inr other ↦
          let e : some j ≡ some k = rw other at h in
          (e, λ f. ground (arith, f, some-injective _ _ e, other))
    ]

    taken_other :
        (owner : ℤ → Option ℕ) (x y : ℤ) (k : ℕ)
        → i ≢ k
        → update x i owner y ≡ some k
        → owner y ≡ some k
    taken_other owner x y k ne h = elim (update_inverse owner x y k h) [
      | inl (_, e) ↦ absurd (ne e)
      | inr before ↦ before
    ]

    Locks-owner :
        {db : Database X} {y : ℤ} {r : Result Error (Account D)} {db' : Database X} (x : ℤ) (k : ℕ)
        → Locks X i db y r db'
        → i ≢ k
        → db'.owner x ≡ some k
        → db.owner x ≡ some k
    Locks-owner {db} {y} x k (granted _ _ _ _) ne h = taken_other db.owner y x k ne h
    Locks-owner x k (missing _) ne h = h
    Locks-owner x k (no_lock _) ne h = h

    Writes-owner :
        {db : Database X} {y : ℤ} {a : D.Decimal} {r : Result Error (Unit {0})} {db' : Database X}
        (x : ℤ) (k : ℕ)
        → Writes X i db y a r db'
        → i ≢ k
        → db'.owner x ≡ some k
        → db.owner x ≡ some k
    Writes-owner {db} {y} x k (written _ _ _ _) ne h = taken_other db.owner y x k ne h
    Writes-owner x k (not_written _) ne h = h

    -- A move gives rows to its own session only.
    pub Move-owner :
        {db db' : Database X} {p p' : SessionPc X} (x : ℤ) (k : ℕ)
        → Move X order i db p p' db'
        → i ≢ k
        → db'.owner x ≡ some k
        → db.owner x ≡ some k
    Move-owner x k (begin_tx begins) ne h = h
    Move-owner x k (begin_tx (no_begin _)) ne h = h
    Move-owner x k (lock_first m) ne h = Locks-owner x k m ne h
    Move-owner x k (lock_second m) ne h = Locks-owner x k m ne h
    Move-owner x k (debit m) ne h = Writes-owner x k m ne h
    Move-owner x k (credit m) ne h = Writes-owner x k m ne h
    Move-owner x k (write_record (inserted _ _ _ _)) ne h = h
    Move-owner x k (write_record (not_inserted _)) ne h = h
    Move-owner {db} x k (commit commits) ne h = (release_inverse (db.owner x) k h).0
    Move-owner {db} x k (commit (discards _)) ne h = (release_inverse (db.owner x) k h).0
    Move-owner {db} x k (commit (answer_lost _)) ne h = (release_inverse (db.owner x) k h).0
    Move-owner {db} x k (roll_back) ne h = (release_inverse (db.owner x) k h).0

    checked-MayHold :
        (tx : Unit {0}) (s d : Account D) (x : ℤ) → MayHold (order i) (checked (order i) tx s d) x
    checked-MayHold tx s d x = elim (Bool-cases (D.less_than s.balance (order i).amount)) [
      | inl short ↦ rw short tt
      | inr enough ↦ rw enough tt
    ]

    -- The rows that a session holds after its move are those that it may hold then.
    pub Move-MayHold :
        {db db' : Database X} {p p' : SessionPc X} (x : ℤ)
        → Move X order i db p p' db'
        → (db.owner x ≡ some i → MayHold (order i) p x)
        → db'.owner x ≡ some i
        → MayHold (order i) p' x
    Move-MayHold x (begin_tx begins) old h = old h
    Move-MayHold x (begin_tx (no_begin _)) old h = old h
    Move-MayHold {db} x (lock_first (granted _ _ _ _)) old h =
        elim (update_inverse db.owner (first_id (order i)) x i h) [
          | inl (e, _) ↦ e
          | inr before ↦ absurd (old before)
        ]
    Move-MayHold x (lock_first (missing _)) old h = tt
    Move-MayHold x (lock_first (no_lock _)) old h = tt
    Move-MayHold x (lock_second {tx} {a} (granted b _ _ _)) old h =
        checked-MayHold tx (source_of (first_id (order i)) (order i).source_id a b)
          (destination_of (first_id (order i)) (order i).source_id a b) x
    Move-MayHold x (lock_second (missing _)) old h = tt
    Move-MayHold x (lock_second (no_lock _)) old h = tt
    Move-MayHold x (debit {r = ok _} m) old h = tt
    Move-MayHold x (debit {r = err _} m) old h = tt
    Move-MayHold x (credit {r = ok _} m) old h = tt
    Move-MayHold x (credit {r = err _} m) old h = tt
    Move-MayHold x (write_record (inserted _ _ _ _)) old h = tt
    Move-MayHold x (write_record (not_inserted _)) old h = tt
    Move-MayHold x (commit commits) old h = tt
    Move-MayHold x (commit (discards _)) old h = tt
    Move-MayHold x (commit (answer_lost _)) old h = tt
    Move-MayHold {db} x (roll_back) old h = absurd ((release_inverse (db.owner x) i h).1 refl)
