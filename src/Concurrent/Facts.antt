-- ===== src/Concurrent/Facts.antt =====
-- What a session knows after its own move.
use internal_transfers_syste.Base.{
  ℕ, ◌≡◌, refl, sym, ◌∙◌, ap, subst, ◌≢◌, ◌⊎◌, inl, inr, some, true, false, arith, Bool-cases,
}
use internal_transfers_syste.Base.Int.{ℤ, ltb_ℤ, ◌==ℤ◌, ==ℤ_refl, ==ℤ_ne}
use internal_transfers_syste.Base.Action.{Result, ok}
use internal_transfers_syste.Models.{Error, DecimalLib, Exact, Account, Transaction}
use internal_transfers_syste.Interfaces.Ledger.{update, update_self, set_balance, add_entry}
use internal_transfers_syste.Interfaces.Contract.{entry_of}
use internal_transfers_syste.Service.Transfer.{new_transaction, source_of, destination_of}
use internal_transfers_syste.Service.Session.{
  Order, first_id, second_id, checked, after_first, after_second, after_debit, after_credit,
  after_record, locking_second, debiting, crediting, recording,
}
use internal_transfers_syste.Concurrent.{
  SessionPc, Database, view, begins, no_begin, granted, missing, no_lock, Locks, Writes, Inserts,
  written, not_written, inserted, not_inserted, commits, discards, answer_lost, Move, begin_tx,
  lock_first, lock_second, debit, credit, write_record, commit, roll_back,
}
use internal_transfers_syste.Concurrent.Family.{update_at_self}
use internal_transfers_syste.Concurrent.Knows.{Holds, Holds-kept, debited, Knows}

module _ {D : DecimalLib} (o : Order D) (apart : o.source_id ≢ o.dest_id) where
  -- Which row is locked first, and that the two accounts are told apart again.
  record InOrder (source_is dest_is : Account D → Account D → Account D) : Type 0 where
    source_same : (a b : Account D) → source_of (first_id o) o.source_id a b ≡ source_is a b
    dest_same : (a b : Account D) → destination_of (first_id o) o.source_id a b ≡ dest_is a b

  source_first : first_id o ≡ o.source_id → InOrder (λ a b. a) (λ a b. b)
  source_first e =
      let same : (first_id o ==ℤ o.source_id) ≡ true =
        ap (λ f. f ==ℤ o.source_id) e ∙ ==ℤ_refl o.source_id in
      record { source_same = λ a b. rw same refl; dest_same = λ a b. rw same refl }

  dest_first : first_id o ≡ o.dest_id → InOrder (λ a b. b) (λ a b. a)
  dest_first e =
      let differ : (first_id o ==ℤ o.source_id) ≡ false =
        ap (λ f. f ==ℤ o.source_id) e ∙ ==ℤ_ne o.dest_id o.source_id (λ d. apart (sym d)) in
      record { source_same = λ a b. rw differ refl; dest_same = λ a b. rw differ refl }

  in_either_order :
      ((first_id o ≡ o.source_id) × (second_id o ≡ o.dest_id))
      ⊎ ((first_id o ≡ o.dest_id) × (second_id o ≡ o.source_id))
  in_either_order = elim (Bool-cases (ltb_ℤ o.dest_id o.source_id)) [
    | inl lower ↦ inr (rw lower refl, rw lower refl)
    | inr higher ↦ inl (rw higher refl, rw higher refl)
  ]

module _ {D : DecimalLib} (X : Exact D) (o : Order D) (i : ℕ)
    (apart : o.source_id ≢ o.dest_id) where
  open X use {Quantity, value, origin, lt}

  -- The session has locked the row `x` and has read `a` there.
  record Locked (db : Database X) (x : ℤ) (a : Account D) : Type 0 where
    is_row : a.account_id ≡ x
    owns : db.owner x ≡ some i
    balance : db.ledger.balances x ≡ some (value a.balance)

  same_row :
      {db : Database X} {x y : ℤ} {a b : Account D} → x ≡ y → a ≡ b → Locked db x a → Locked db y b
  same_row {db} {x} {y} {a} {b} e₁ e₂ h = subst (λ z. Locked db z b) e₁ (subst (Locked db x) e₂ h)

  Locked-Holds :
      {db : Database X} (s d : Account D)
      → Locked db o.source_id s
      → Locked db o.dest_id d
      → D.less_than s.balance o.amount ≡ false
      → Holds X o i db s d
  Locked-Holds s d from to enough = record {
    is_source = from.is_row;
    is_dest = to.is_row;
    owns_source = from.owns;
    owns_dest = to.owns;
    source_balance = from.balance;
    dest_balance = to.balance;
    enough = enough;
  }

  checked-Knows :
      {db : Database X} (tx : Unit {0}) (s d : Account D)
      → Locked db o.source_id s
      → Locked db o.dest_id d
      → db.changes i ≡ (λ L. L)
      → Knows X o i (checked o tx s d) db
  checked-Knows tx s d from to clean = elim (Bool-cases (D.less_than s.balance o.amount)) [
    | inl short ↦ rw short tt
    | inr enough ↦ rw enough ((Locked-Holds s d from to enough, clean))
  ]

  -- The row that was locked first stays locked.
  second_Knows :
      {db : Database X} (tx : Unit {0}) (a b : Account D)
      → Locked db (first_id o) a
      → Locked db (second_id o) b
      → db.changes i ≡ (λ L. L)
      → Knows X o i (after_second o tx a (ok b)) db
  second_Knows {db} tx a b one two clean = elim (in_either_order o apart) [
    | inl (e₁, e₂) ↦
        checked-Knows tx _ _ (same_row e₁ (sym ((source_first o apart e₁).source_same a b)) one)
          (same_row e₂ (sym ((source_first o apart e₁).dest_same a b)) two) clean
    | inr (e₁, e₂) ↦
        checked-Knows tx _ _ (same_row e₂ (sym ((dest_first o apart e₁).source_same a b)) two)
          (same_row e₁ (sym ((dest_first o apart e₁).dest_same a b)) one) clean
  ]

  owned_taken : (db : Database X) (x y : ℤ) → db.owner y ≡ some i → update x i db.owner y ≡ some i
  owned_taken db x y h = ground arith

  -- A transaction that has written nothing sees what is committed.
  view_clean :
      (db : Database X) {x : ℤ} {q : Quantity}
      → db.changes i ≡ (λ L. L)
      → (view X i db).balances x ≡ some q
      → db.ledger.balances x ≡ some q
  view_clean db {x} clean seen = sym (ap (λ f. (f db.ledger).balances x) clean) ∙ seen

  first_Knows :
      {db db' : Database X} (tx : Unit {0}) {r : Result Error (Account D)}
      → Locks X i db (first_id o) r db'
      → db.changes i ≡ (λ L. L)
      → Knows X o i (after_first o tx r) db'
  first_Knows {db} tx (granted a free is_row seen) clean =
      (clean, is_row, update_self (first_id o) i db.owner, view_clean db clean seen)
  first_Knows tx (missing _) clean = tt
  first_Knows tx (no_lock _) clean = tt

  then_second_Knows :
      {db db' : Database X} (tx : Unit {0}) (a : Account D) {r : Result Error (Account D)}
      → Locks X i db (second_id o) r db'
      → Knows X o i (locking_second tx a) db
      → Knows X o i (after_second o tx a r) db'
  then_second_Knows {db} tx a (granted b free is_row seen) (clean, is_first, owns, has) =
      second_Knows tx a b
        (record {
          is_row = is_first;
          owns = owned_taken db (second_id o) (first_id o) owns;
          balance = has;
        })
        (record {
          is_row = is_row;
          owns = update_self (second_id o) i db.owner;
          balance = view_clean db clean seen;
        })
        clean
  then_second_Knows tx a (missing _) h = tt
  then_second_Knows tx a (no_lock _) h = tt

  debit_Knows :
      {db : Database X} (tx : Unit {0}) (s d : Account D) {r : Result Error (Unit {0})}
      {db' : Database X}
      → Writes X i db s.account_id (D.sub s.balance o.amount) r db'
      → Knows X o i (debiting tx s d) db
      → Knows X o i (after_debit o tx d r) db'
  debit_Knows {db} tx s d (written q free _ _) (holds, clean) = (
    s,
    Holds-kept X o i (λ y. owned_taken db s.account_id y) (λ y _. refl) holds,
    update_at_self i _ db.changes ∙ ap (λ f L. debited X o i s (f L)) clean,
  )
  debit_Knows tx s d (not_written _) h = tt

  credit_Knows :
      {db : Database X} (tx : Unit {0}) (d : Account D) {r : Result Error (Unit {0})}
      {db' : Database X}
      → Writes X i db d.account_id (D.add d.balance o.amount) r db'
      → Knows X o i (crediting tx d) db
      → Knows X o i (after_credit o tx r) db'
  credit_Knows {db} tx d (written q free _ _) (s, holds, now) = (
    s,
    d,
    Holds-kept X o i (λ y. owned_taken db d.account_id y) (λ y _. refl) holds,
    update_at_self i _ db.changes
        ∙ ap (λ f L. set_balance d.account_id (value (D.add d.balance o.amount)) (f L)) now,
  )
  credit_Knows tx d (not_written _) h = tt

  record_Knows :
      {db db' : Database X} (tx : Unit {0}) {r : Result Error (Transaction D)}
      → Inserts X i db (new_transaction o.source_id o.dest_id o.amount) r db'
      → Knows X o i (recording tx) db
      → Knows X o i (after_record o tx r) db'
  record_Knows {db} tx (inserted u from to all) (s, d, holds, now) = (
    s,
    d,
    Holds-kept X o i (λ y h. h) (λ y _. refl) holds,
    update_at_self i _ db.changes ∙ ap (λ f L. add_entry (entry_of X u) (f L)) now,
    from,
    to,
    all,
  )
  record_Knows tx (not_inserted _) h = tt

module _ {D : DecimalLib} (X : Exact D) (order : ℕ → Order D) (i : ℕ)
    (apart : (order i).source_id ≢ (order i).dest_id) where
  -- A move leads to a point where the session knows what it is to know.
  pub Move-Knows :
      {db db' : Database X} {p p' : SessionPc X}
      → Move X order i db p p' db'
      → Knows X (order i) i p db
      → Knows X (order i) i p' db'
  Move-Knows {db} (begin_tx begins) h = update_at_self i (λ L. L) db.changes
  Move-Knows (begin_tx (no_begin _)) h = tt
  Move-Knows (lock_first {tx} m) h = first_Knows X (order i) i apart tx m h
  Move-Knows (lock_second {tx} {a} m) h = then_second_Knows X (order i) i apart tx a m h
  Move-Knows (debit {tx} {s} {d} m) h = debit_Knows X (order i) i apart tx s d m h
  Move-Knows (credit {tx} {d} m) h = credit_Knows X (order i) i apart tx d m h
  Move-Knows (write_record {tx} m) h = record_Knows X (order i) i apart tx m h
  Move-Knows (commit commits) h = tt
  Move-Knows (commit (discards _)) h = tt
  Move-Knows (commit (answer_lost _)) h = tt
  Move-Knows roll_back h = tt
