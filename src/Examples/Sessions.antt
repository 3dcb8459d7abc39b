-- ===== src/Examples/Sessions.antt =====
-- Sessions of transfers over the database in memory, and two that cross: one pays from account 1 to
-- account 2 and the other from account 2 to account 1.
use internal_transfers_syste.Base.{
  ◌⊎◌, some, ℕ, ◌≡◌, ◌≢◌, refl, true, false, ◌==◌, arith, inl, inr, if◌then◌else◌, [], ◌∷◌, ◌+◌,
  ◌≤◌, ◌*◌,
}
use internal_transfers_syste.Base.Int.{ℤ, pos, ltb_ℤ, ◌-ℤ◌, ◌+ℤ◌, IsInt64}
use internal_transfers_syste.Base.Action.{ok}
use internal_transfers_syste.Models.{Account, Transaction}
use internal_transfers_syste.Interfaces.Ledger.{Ledger, update, set_balance, add_entry}
use internal_transfers_syste.Interfaces.Ledger.Total.{Has, Distinct, total}
use internal_transfers_syste.Interfaces.Contract.{entry_of}
use internal_transfers_syste.Service.Transfer.{new_transaction, execute_transfer}
use internal_transfers_syste.Service.Transfer.Spec.{IsSolvent}
use internal_transfers_syste.Service.Session.{
  Order, beginning, locking_first, locking_second, debiting, crediting, recording, committing,
  rolling_back, answer, returned, calls,
}
use internal_transfers_syste.Service.Session.Run.{calls-execute_transfer}
use internal_transfers_syste.Concurrent.{
  SessionPc, System, end_tx, view, begin_tx, begins, lock_first, lock_second, granted, debit,
  credit, written, write_record, inserted, commit, commits, roll_back, session, Reach, here,
  then_step, start, Loses,
}
use internal_transfers_syste.Concurrent.Family.{update_at}
use internal_transfers_syste.Concurrent.Serial.{Serializes, Reach-Serializes, Reach-Conserves}
use internal_transfers_syste.Concurrent.Waiting.{Ready, IsOpen, HoldsRow}
use internal_transfers_syste.Concurrent.Progress.{GoesOn, Reach-GoesOn}
use internal_transfers_syste.Concurrent.Release.{returned_releases}
use internal_transfers_syste.Concurrent.Deadlock.{Reach-Ready}
use internal_transfers_syste.Concurrent.Termination.{calls_left, no_calls, one_call, Run-calls_left}
use internal_transfers_syste.Examples.Whole.{whole_decimals, whole_exact}
use internal_transfers_syste.Examples.Memory.{account_of, memory}
use internal_transfers_syste.Examples.Accounts.{opening, opening-IsSolvent}
use internal_transfers_syste.Examples.Accounts as Accounts

abbrev pay : Order whole_decimals
pay = record { source_id = pos 1; dest_id = pos 2; amount = pos 30 }

abbrev pay_back : Order whole_decimals
pay_back = record { source_id = pos 2; dest_id = pos 1; amount = pos 20 }

abbrev pub crossing : ℕ → Order whole_decimals
crossing i = if i == 1 then pay_back else pay

pub crossing-apart : (i : ℕ) → (crossing i).source_id ≢ (crossing i).dest_id
crossing-apart i = ground arith

pub crossing-fits : (i : ℕ) → IsInt64 (crossing i).source_id × IsInt64 (crossing i).dest_id
crossing-fits i = ground arith

pub crossing-positive : (i : ℕ) → ltb_ℤ (pos 0) (crossing i).amount ≡ true
crossing-positive i = ground arith

ids-Distinct : Distinct (pos 1 ∷ pos 2 ∷ [])
ids-Distinct = ground arith

source_listed : (i : ℕ) → Has (crossing i).source_id (pos 1 ∷ pos 2 ∷ [])
source_listed i = ground arith

dest_listed : (i : ℕ) → Has (crossing i).dest_id (pos 1 ∷ pos 2 ∷ [])
dest_listed i = ground arith

abbrev locked : ℕ → SessionPc whole_exact → ℤ → System whole_exact → System whole_exact
locked i p x s = record {
  db = record s.db { owner = update x i s.db.owner };
  pc = update_at i p s.pc;
}

abbrev changed :
    ℕ → SessionPc whole_exact → (Ledger ℤ → Ledger ℤ) → System whole_exact → System whole_exact
changed i p f s = record {
  db = record s.db { changes = update_at i f s.db.changes };
  pc = update_at i p s.pc;
}

abbrev wrote :
    ℕ → SessionPc whole_exact → ℤ → (Ledger ℤ → Ledger ℤ) → System whole_exact → System whole_exact
wrote i p x f s = record {
  db = record s.db { owner = update x i s.db.owner; changes = update_at i f s.db.changes };
  pc = update_at i p s.pc;
}

abbrev payer : Account whole_decimals
payer = account_of (pos 1) (pos 100)

abbrev payee : Account whole_decimals
payee = account_of (pos 2) (pos 50)

abbrev receipt : Transaction whole_decimals
receipt = record (new_transaction {D = whole_decimals} (pos 1) (pos 2) (pos 30)) {
  transaction_id = pos 1;
}

-- Both begin, and the first one locks account 1: the second one has to wait for it.
abbrev both_begun : System whole_exact
both_begun =
    changed 1 (locking_first tt) (λ L. L)
      (changed 0 (locking_first tt) (λ L. L) (start whole_exact opening))

abbrev one_waits : System whole_exact
one_waits = locked 0 (locking_second tt payer) (pos 1) both_begun

unfoldable pub one_waits_reached : Reach whole_exact crossing opening one_waits
one_waits_reached =
    then_step
      (then_step (then_step here (session 0 (begin_tx begins))) (session 1 (begin_tx begins)))
      (session 0 (lock_first (granted payer (inl refl) refl refl)))

-- The first one goes on to its commit.
abbrev both_locked : System whole_exact
both_locked = locked 0 (debiting tt payer payee) (pos 2) one_waits

abbrev debited : System whole_exact
debited = wrote 0 (crediting tt payee) (pos 1) (λ L. set_balance (pos 1) (pos 70) L) both_locked

abbrev both_set : Ledger ℤ → Ledger ℤ
both_set L = set_balance (pos 2) (pos 80) (set_balance (pos 1) (pos 70) L)

abbrev credited : System whole_exact
credited = wrote 0 (recording tt) (pos 2) both_set debited

abbrev recorded : System whole_exact
recorded =
    changed 0 (committing tt receipt) (λ L. add_entry (entry_of whole_exact receipt) (both_set L))
      credited

abbrev pub committed : System whole_exact
committed = record {
  db = end_tx whole_exact 0 (record recorded.db { ledger = view whole_exact 0 recorded.db });
  pc = update_at 0 (rolling_back tt (ok receipt)) recorded.pc;
}

unfoldable pub committed_reached : Reach whole_exact crossing opening committed
unfolding ◌-ℤ◌ ◌+ℤ◌
committed_reached =
    then_step {s = recorded}
      (then_step {s = credited}
        (then_step {s = debited}
          (then_step {s = both_locked}
            (then_step {s = one_waits} one_waits_reached
              (session 0 (lock_second (granted payee (inl refl) refl refl))))
            (session 0 (debit {s = payer} {d = payee} (written (pos 100) (inr refl) refl refl))))
          (session 0 (credit {d = payee} (written (pos 50) (inr refl) refl refl))))
        (session 0 (write_record (inserted receipt refl refl refl))))
      (session 0 (commit commits))

abbrev pub over : System whole_exact
over = record {
  db = end_tx whole_exact 0 committed.db;
  pc = update_at 0 (returned (ok receipt)) committed.pc;
}

unfoldable pub over_reached : Reach whole_exact crossing opening over
over_reached = then_step {s = committed} committed_reached (session 0 (roll_back))

returned_releases_example : over.db.owner (pos 1) ≢ some 0
returned_releases_example =
    returned_releases whole_exact crossing opening over_reached 0 (ok receipt) refl (pos 1)

calls-execute_transfer_example :
    calls (memory false) pay 8 beginning (Accounts.start false)
    ≡ answer returned
        (execute_transfer (memory false) (pos 1) (pos 2) (pos 30) (Accounts.start false))
calls-execute_transfer_example = calls-execute_transfer (memory false) pay (Accounts.start false)

Reach-Serializes_example :
    Serializes whole_exact crossing opening
      (λ j. Loses whole_exact crossing j committed_reached)
      committed
Reach-Serializes_example =
    Reach-Serializes whole_exact crossing opening crossing-apart committed_reached

Reach-Conserves_example :
    (total whole_exact (pos 1 ∷ pos 2 ∷ []) committed.db.ledger.balances
      ≡ total whole_exact (pos 1 ∷ pos 2 ∷ []) opening.balances)
    × IsSolvent whole_exact committed.db.ledger
Reach-Conserves_example =
    Reach-Conserves whole_exact crossing opening crossing-apart crossing-positive opening-IsSolvent
      (pos 1 ∷ pos 2 ∷ []) ids-Distinct source_listed dest_listed committed_reached

Reach-Ready_example : Ready whole_exact crossing 1 one_waits
Reach-Ready_example =
    Reach-Ready whole_exact crossing crossing-apart crossing-fits opening one_waits_reached 1 tt

two_of_sixteen_calls : 2 + calls_left whole_exact 2 both_begun.pc ≤ 8 * 2
two_of_sixteen_calls = Run-calls_left whole_exact crossing 2 opening (
    one_call 1 (one_call 0 no_calls (omega arith) (begin_tx begins)) (omega arith)
      (begin_tx begins))

one_waits-GoesOn :
    (k : ℕ) × ((k ≡ 1) ⊎ HoldsRow whole_exact crossing one_waits k)
    × IsOpen (one_waits.pc k)
    × GoesOn whole_exact crossing k one_waits.db (one_waits.pc k)
one_waits-GoesOn =
    Reach-GoesOn whole_exact (λ q. (q, refl)) crossing opening crossing-apart crossing-fits
      crossing-positive opening-IsSolvent one_waits_reached 1 tt
