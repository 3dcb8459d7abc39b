-- ===== src/Examples/Driver.antt =====
-- A driver in memory over whole decimals, which keeps what the repositories rely on.
use internal_transfers_syste.Base.{
  ℕ, ◌≡◌, refl, sym, inl, inr, false, none, some, Option, [], Bool-cases, Option-cases,
  if◌then◌else◌,
}
use internal_transfers_syste.Base.Int.{ℤ, pos, ltb_ℤ}
use internal_transfers_syste.Base.Action.{Result, ok, err, Action}
use internal_transfers_syste.Models.{Error, plain, no_rows, zero_time, Account, Transaction}
use internal_transfers_syste.Interfaces.Ledger.{set_balance}
use internal_transfers_syste.Repository.{repositories}
use internal_transfers_syste.Repository.Driver.{
  Pgx, RowQuery, Row, insert_account, select_account, select_account_for_update, account_exists,
  insert_transaction, select_transaction,
}
use internal_transfers_syste.Repository.Driver.Contract.{IsLawfulDriver}
use internal_transfers_syste.Repository.Lawful.{Wrapped, repositories-IsLawful}
use internal_transfers_syste.Interfaces.Contract.{IsLawful}
use internal_transfers_syste.Examples.Whole.{whole_decimals, whole_exact}
use internal_transfers_syste.Examples.Memory.{
  World, Tx, account_of, is_some, allowed, insert, not_allowed, begin_tx, commit, rollback,
}

abbrev inserted : ℤ → ℤ → Option ℤ → World → Result Error (ℤ × ℤ) × World
inserted i d (some _) w = (err (plain "duplicate key"), w)
inserted i d none w =
    if ltb_ℤ d (pos 0)
    then (err (plain "check violation"), w)
    else (ok (zero_time, zero_time), record w { stored = set_balance i d w.stored })

abbrev selected : ℤ → Option ℤ → World → Result Error (Account whole_decimals) × World
selected i none w = (err no_rows, w)
selected i (some q) w = (ok (account_of i q), w)

abbrev written : ℤ → ℤ → Option ℤ → World → Result Error ℕ × World
written i d none w = (ok 0, w)
written i d (some _) w =
    if ltb_ℤ d (pos 0)
    then (err (plain "check violation"), w)
    else (ok 1, record w { working = set_balance i d w.working })

abbrev draft : ℤ → ℤ → ℤ → Transaction whole_decimals
draft s d amount = record {
  transaction_id = pos 0;
  source_account_id = s;
  destination_account_id = d;
  amount = amount;
  created_at = zero_time;
}

-- The id and the time of a record that is written.
abbrev stamp : Result Error (Transaction whole_decimals) × World → Result Error (ℤ × ℤ) × World
stamp (err e, w) = (err e, w)
stamp (ok t, w) = (ok (t.transaction_id, t.created_at), w)

abbrev on_pool : (q : RowQuery whole_decimals) → Action World Error (Row q)
on_pool (insert_account i d) w = inserted i d (w.stored.balances i) w
on_pool (select_account i) w = selected i (w.stored.balances i) w
on_pool (select_account_for_update i) w = selected i (w.stored.balances i) w
on_pool (account_exists i) w = (ok (is_some (w.stored.balances i)), w)
on_pool (insert_transaction _ _ _) w = (err (plain "not in a transaction"), w)
on_pool (select_transaction _) w = (err no_rows, w)

abbrev in_tx : Tx → (q : RowQuery whole_decimals) → Action World Error (Row q)
in_tx tx (insert_account i d) w = (err (plain "not on the pool"), w)
in_tx tx (select_account i) w = selected i (w.working.balances i) w
in_tx tx (select_account_for_update i) w = selected i (w.working.balances i) w
in_tx tx (account_exists i) w = (ok (is_some (w.working.balances i)), w)
in_tx tx (insert_transaction s d amount) w = stamp (
    if allowed w.working (draft s d amount)
    then insert (draft s d amount) w
    else (err (plain "constraint violation"), w))
in_tx tx (select_transaction _) w = (err no_rows, w)

abbrev pub driver : Pgx whole_decimals
driver = record {
  World = World;
  Tx = Tx;
  query_row = on_pool;
  tx_query_row = in_tx;
  tx_update_balance = λ tx d i w. written i d (w.working.balances i) w;
  query_transactions = λ i limit offset w. (ok (record { scans = []; failure = none }), w);
  begin_tx = λ options. begin_tx;
  commit = commit false;
  rollback = rollback false;
  wait = λ delay w. (none, w);
}

unfoldable pub lawful_driver : IsLawfulDriver whole_exact driver
lawful_driver = record {
  Fault = λ e. ⊥;
  Lost = λ e. ⊥;
  Duplicate = λ e. e ≡ plain "duplicate key";
  Fault-no_rows = λ e h. absurd h;
  committed = λ w. w.stored;
  pending = λ tx w. w.working;
  insert_account-Triple = λ L i d. record {
    run = λ w h. rw (sym h) (elim (Option-cases (w.stored.balances i)) [
      | inr (q, there) ↦ rw there (inl (refl, λ e. cc, refl))
      | inl absent ↦ elim (Bool-cases (ltb_ℤ d (pos 0))) [
        | inl below ↦ rw (absent, below) (inr (inl (refl, refl)))
        | inr fine ↦ rw (absent, fine) (refl, refl)
      ]
    ]);
  };
  select_account-Triple = λ L i. record {
    run = λ w h. rw (sym h) (elim (Option-cases (w.stored.balances i)) [
      | inl absent ↦ rw absent (refl, inl (refl, refl))
      | inr (q, there) ↦ rw there (refl, refl, refl)
    ]);
  };
  account_exists-Triple = λ L i. record {
    run = λ w h. rw (sym h) (elim (Option-cases (w.stored.balances i)) [
      | inl absent ↦ rw absent (refl, inr (refl, refl))
      | inr (q, there) ↦ rw there (refl, inl (refl, λ e. cc))
    ]);
  };
  begin_tx-Triple = λ L options writes. record { run = λ w h. (h, h) };
  select_account_for_update-Triple = λ L M tx i. record {
    run = λ w (h, k).
        rw (sym h, sym k)
          (elim (Option-cases (w.working.balances i)) [
            | inl absent ↦ rw absent (refl, inl (refl, refl))
            | inr (q, there) ↦ rw there (refl, refl, refl, refl)
          ]);
  };
  tx_update_balance-Triple = λ L M tx i d. record {
    run = λ w (h, k).
        rw (sym h, sym k)
          (elim (Option-cases (w.working.balances i)) [
            | inl absent ↦ rw absent (refl, inr (refl, refl))
            | inr (q, there) ↦ elim (Bool-cases (ltb_ℤ d (pos 0))) [
              | inl below ↦ rw (there, below) (refl, inl refl)
              | inr fine ↦ rw (there, fine) (refl, inl (refl, refl))
            ]
          ]);
  };
  insert_transaction-Triple = λ L M tx s d amount. record {
    run = λ w (h, k).
        rw (sym h, sym k)
          (elim (Bool-cases (allowed w.working (draft s d amount))) [
            | inl fine ↦ rw fine (refl, refl)
            | inr wrong ↦ rw wrong (refl, not_allowed w.working (draft s d amount) wrong)
          ]);
  };
  commit-Triple = λ L M tx. record { run = λ w (h, k). k };
  rollback-Triple = λ L tx. record { run = λ w h. h };
  wait_lem = λ delay w. refl;
  wait-Fault = λ delay w h. cc;
}

repositories-IsLawful_example :
    (l : IsLawful whole_exact (repositories driver)) × (l.committed ≡ lawful_driver.committed)
    × (l.pending ≡ lawful_driver.pending)
    × (l.Fault ≡ Wrapped whole_exact lawful_driver.Fault)
    × (l.Lost ≡ Wrapped whole_exact lawful_driver.Lost)
    × (l.Duplicate ≡ Wrapped whole_exact lawful_driver.Duplicate)
repositories-IsLawful_example = repositories-IsLawful whole_exact lawful_driver
