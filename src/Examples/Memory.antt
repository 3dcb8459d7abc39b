-- ===== src/Examples/Memory.antt =====
-- A backend in memory over whole decimals, which keeps the contract: it shows that the contract can
-- be kept, and runs the services in the examples. With `lossy`, a commit may lose its answer.
use mathlib.Core.Bool.{◌&&◌}
use internal_transfers_syste.Base.{
  suc, ◌≡◌, refl, sym, ◌⊎◌, inl, inr, Bool, true, false, not, Option, none, some, [], arith,
  Bool-cases, Option-cases, length, if◌then◌else◌,
}
use internal_transfers_syste.Base.Int.{ℤ, pos, ltb_ℤ, ◌==ℤ◌, ==ℤ_iff}
use internal_transfers_syste.Base.Action.{Result, ok, err, Action}
use internal_transfers_syste.Models.{
  Error, plain, err_account_not_found, Account, Transaction, zero_time,
}
use internal_transfers_syste.Interfaces.{Backend}
use internal_transfers_syste.Interfaces.Ledger.{Ledger, set_balance, add_entry}
use internal_transfers_syste.Interfaces.Contract.{entry_of, IsLawful}
use internal_transfers_syste.Examples.Whole.{whole_decimals, whole_exact}

-- The ledger that is committed, the one of the transaction, and whether the next commit loses its
-- answer.
pub record World : Type 0 where
  pub stored : Ledger ℤ
  pub working : Ledger ℤ
  pub losing : Bool

abbrev pub Tx : Type 0
Tx = Unit {0}

abbrev pub account_of : ℤ → ℤ → Account whole_decimals
account_of i q = record {
  account_id = i;
  balance = q;
  created_at = zero_time;
  updated_at = zero_time;
}

abbrev pub insert_account :
    Account whole_decimals → Option ℤ → World → Result Error (Account whole_decimals) × World
insert_account a (some _) w = (err (plain "duplicate key"), w)
insert_account a none w =
    if ltb_ℤ a.balance (pos 0)
    then (err (plain "check violation"), w)
    else (ok a, record w { stored = set_balance a.account_id a.balance w.stored })

abbrev pub create : Account whole_decimals → Action World Error (Account whole_decimals)
create a w = insert_account a (w.stored.balances a.account_id) w

-- A row of a ledger, if it is there.
abbrev pub row : ℤ → Option ℤ → World → Result Error (Account whole_decimals) × World
row i none w = (err err_account_not_found, w)
row i (some q) w = (ok (account_of i q), w)

abbrev pub get_by_id : ℤ → Action World Error (Account whole_decimals)
get_by_id i w = row i (w.stored.balances i) w

abbrev pub is_some : Option ℤ → Bool
is_some none = false
is_some (some _) = true

abbrev pub exists : ℤ → Action World Error Bool
exists i w = (ok (is_some (w.stored.balances i)), w)

abbrev pub begin_tx : Action World Error Tx
begin_tx w = (ok tt, record w { working = w.stored })

abbrev pub get_by_id_for_update : Tx → ℤ → Action World Error (Account whole_decimals)
get_by_id_for_update tx i w = row i (w.working.balances i) w

abbrev pub write_balance : ℤ → ℤ → Option ℤ → World → Result Error (Unit {0}) × World
write_balance i d none w = (err (plain "no rows updated"), w)
write_balance i d (some _) w =
    if ltb_ℤ d (pos 0)
    then (err (plain "check violation"), w)
    else (ok tt, record w { working = set_balance i d w.working })

abbrev pub update_balance : Tx → ℤ → ℤ → Action World Error (Unit {0})
update_balance tx i d w = write_balance i d (w.working.balances i) w

-- The record with the next id.
abbrev pub numbered : Ledger ℤ → Transaction whole_decimals → Transaction whole_decimals
numbered M t = record t { transaction_id = pos (suc (length M.entries)) }

abbrev pub insert :
    Transaction whole_decimals → World → Result Error (Transaction whole_decimals) × World
insert t w = (
  ok (numbered w.working t),
  record w { working = add_entry (entry_of whole_exact (numbered w.working t)) w.working },
)

abbrev pub allowed : Ledger ℤ → Transaction whole_decimals → Bool
allowed M t =
    is_some (M.balances t.source_account_id)
    && is_some (M.balances t.destination_account_id)
    && ltb_ℤ (pos 0) t.amount
    && not (t.source_account_id ==ℤ t.destination_account_id)

abbrev pub create_transaction :
    Tx → Transaction whole_decimals → Action World Error (Transaction whole_decimals)
create_transaction tx t w =
    if allowed w.working t then insert t w else (err (plain "constraint violation"), w)

pub not_allowed :
    (M : Ledger ℤ) (t : Transaction whole_decimals)
    → allowed M t ≡ false
    → (M.balances t.source_account_id ≡ none)
      ⊎ (M.balances t.destination_account_id ≡ none)
      ⊎ (ltb_ℤ (pos 0) t.amount ≡ false)
      ⊎ (t.source_account_id ≡ t.destination_account_id)
      ⊎ ⊥
not_allowed M t wrong = elim (Option-cases (M.balances t.source_account_id)) [
  | inl missing ↦ inl missing
  | inr (p, from) ↦ elim (Option-cases (M.balances t.destination_account_id)) [
    | inl missing ↦ inr (inl missing)
    | inr (q, to) ↦ elim (Bool-cases (ltb_ℤ (pos 0) t.amount)) [
      | inr low ↦ inr (inr (inl low))
      | inl high ↦
          let left : not (t.source_account_id ==ℤ t.destination_account_id) ≡ false =
            rw (from, to, high) at wrong in
          inr (inr (inr (inl ((==ℤ_iff _ _).0 (ground (arith, left))))))
    ]
  ]
]

pub left_true : (a b : Bool) → (a && b) ≡ true → a ≡ true
left_true a b h = ground arith

module _ (lossy : Bool) where
  abbrev pub commit : Tx → Action World Error (Unit {0})
  commit tx w =
      if lossy && w.losing
      then (
        err (plain "connection reset by peer"),
        record { stored = w.working; working = w.working; losing = false },
      )
      else (ok tt, record w { stored = w.working })

  abbrev pub rollback : Tx → Action World Error (Unit {0})
  rollback tx w = (ok tt, w)

  abbrev pub memory : Backend whole_decimals
  memory = record {
    World = World;
    Tx = Tx;
    accounts = record {
      create = create;
      get_by_id = get_by_id;
      get_by_id_for_update = get_by_id_for_update;
      update_balance = update_balance;
      exists = exists;
      begin_tx = begin_tx;
    };
    transactions = record {
      create = create_transaction;
      get_by_id = λ i w. (err (plain "not kept"), w);
      get_by_account_id = λ i limit offset w. (ok [], w);
    };
    commit = commit;
    rollback = rollback;
    wait = λ delay w. (none, w);
  }

  unfoldable pub memory_lawful : IsLawful whole_exact memory
  memory_lawful = record {
    Fault = λ e. ⊥;
    Lost = λ e. lossy ≡ true;
    Duplicate = λ e. e ≡ plain "duplicate key";
    committed = λ w. w.stored;
    pending = λ tx w. w.working;
    create-Triple = λ L a. record {
      run = λ w h. rw (sym h) (elim (Option-cases (w.stored.balances a.account_id)) [
        | inr (q, there) ↦ rw there (inl (refl, λ e. cc, refl))
        | inl absent ↦ elim (Bool-cases (ltb_ℤ a.balance (pos 0))) [
          | inl below ↦ rw (absent, below) (inr (inl (refl, refl)))
          | inr fine ↦ rw (absent, fine) (refl, refl, refl, refl)
        ]
      ]);
    };
    get_by_id-Triple = λ L i. record {
      run = λ w h. rw (sym h) (elim (Option-cases (w.stored.balances i)) [
        | inl absent ↦ rw absent (refl, inl (refl, refl))
        | inr (q, there) ↦ rw there (refl, refl, refl)
      ]);
    };
    exists-Triple = λ L i. record {
      run = λ w h. rw (sym h) (elim (Option-cases (w.stored.balances i)) [
        | inl absent ↦ rw absent (refl, inr (refl, refl))
        | inr (q, there) ↦ rw there (refl, inl (refl, λ e. cc))
      ]);
    };
    begin_tx-Triple = λ L. record { run = λ w h. (h, h) };
    get_by_id_for_update-Triple = λ L M tx i. record {
      run = λ w (h, k).
          rw (sym h, sym k)
            (elim (Option-cases (w.working.balances i)) [
              | inl absent ↦ rw absent (refl, inl (refl, refl))
              | inr (q, there) ↦ rw there (refl, refl, refl, refl)
            ]);
    };
    update_balance-Triple = λ L M tx i d. record {
      run = λ w (h, k).
          rw (sym h, sym k)
            (elim (Option-cases (w.working.balances i)) [
              | inl absent ↦ rw absent (refl, inl refl)
              | inr (q, there) ↦ elim (Bool-cases (ltb_ℤ d (pos 0))) [
                | inl below ↦ rw (there, below) (refl, inr (inl refl))
                | inr fine ↦ rw (there, fine) (refl, refl)
              ]
            ]);
    };
    create_transaction-Triple = λ L M tx t. record {
      run = λ w (h, k).
          rw (sym h, sym k)
            (elim (Bool-cases (allowed w.working t)) [
              | inl fine ↦ rw fine (refl, refl, refl, refl, refl)
              | inr wrong ↦ rw wrong (refl, not_allowed w.working t wrong)
            ]);
    };
    commit-Triple = λ L M tx. record {
      run = λ w (h, k).
          rw (sym h, sym k)
            (elim (Bool-cases (lossy && w.losing)) [
              | inl lost ↦ rw lost (inr (refl, left_true lossy w.losing lost))
              | inr told ↦ rw told refl
            ]);
    };
    rollback-Triple = λ L tx. record { run = λ w h. h };
    wait_lem = λ delay w. refl;
    wait-Fault = λ delay w h. cc;
  }
