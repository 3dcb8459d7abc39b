-- ===== src/Mocks.antt =====
-- internal/mocks: the repositories that the tests of the services run on. Their errors, and the hook
-- `OnGetByIDForUpdate`, are what a test has set before it starts. A map of Go is a function, or a list
-- where the code ranges over it, in the order in which the range visits it. A test runs the mocks
-- from one goroutine, so the mutexes are left out.
pub mod Unsafe
use internal_transfers_syste.Base.{
  ℕ, ◌+◌, ◌-◌, Bool, true, false, ◌||◌, Option, none, some, List, [], ◌∷◌, length, take, drop,
  if◌then◌else◌, ltb,
}
use internal_transfers_syste.Base.Int.{ℤ, pos, ◌+ℤ◌, ◌-ℤ◌, ltb_ℤ, leb_ℤ, ◌==ℤ◌, wrap64}
use internal_transfers_syste.Base.Action.{Result, ok, err, Action, pure, raise}
use internal_transfers_syste.Models.{
  Error, plain, err_account_already_exists, err_account_not_found, err_transfer_not_found,
  DecimalLib, Account, Transaction, zero_time,
}
use internal_transfers_syste.Interfaces.{AccountRepository, TransactionRepository, Backend}
use internal_transfers_syste.Interfaces.Ledger.{update}

module _ (D : DecimalLib) where
  pub record World : Type 0 where
    pub accounts : ℤ → Option (Account D)
    pub transactions : List (Transaction D)
    pub next_id : ℤ

  -- The fields of `MockAccountRepository` that a test sets.
  pub record AccountErrors : Type 0 where
    pub create_error : Option Error
    pub get_by_id_error : Option Error
    pub get_by_id_for_update_error : Option Error
    pub update_balance_error : Option Error
    pub exists_error : Option Error
    pub begin_tx_error : Option Error
    pub on_get_by_id_for_update : Option (ℤ → Action World Error (Account D))

  pub record TransactionErrors : Type 0 where
    pub create_error : Option Error
    pub get_by_id_error : Option Error
    pub get_by_account_id_error : Option Error

  -- `NewMockAccountRepository` and `NewMockTransactionRepository`
  abbrev pub new_world : World
  new_world = record { accounts = λ i. none; transactions = []; next_id = pos 1 }

-- `if m.SomeError != nil { return m.SomeError }`
abbrev pub unless : {W A : Type 0} → Option Error → Action W Error A → Action W Error A
unless none m = m
unless (some e) m = raise e

module _ {D : DecimalLib} where
  -- The new struct that is stored or returned: the times are not copied.
  abbrev pub copy_account : Account D → Account D
  copy_account a = record a { created_at = zero_time; updated_at = zero_time }

  abbrev pub copy_transaction : Transaction D → Transaction D
  copy_transaction t = record t { created_at = zero_time }

  abbrev pub found_account : World D → Option (Account D) → Result Error (Account D) × World D
  found_account w none = (err err_account_not_found, w)
  found_account w (some a) = (ok (copy_account a), w)

  abbrev pub add_account :
      Account D → World D → Option (Account D) → Result Error (Account D) × World D
  add_account a w (some _) = (err err_account_already_exists, w)
  add_account a w none =
      (ok a, record w { accounts = update a.account_id (copy_account a) w.accounts })

  abbrev pub put_balance :
      ℤ → D.Decimal → World D → Option (Account D) → Result Error (Unit {0}) × World D
  put_balance id balance w none = (err err_account_not_found, w)
  put_balance id balance w (some a) =
      (ok tt, record w { accounts = update id (record a { balance = balance }) w.accounts })

  abbrev pub is_there : Option (Account D) → Bool
  is_there none = false
  is_there (some _) = true

  -- `OnGetByIDForUpdate`, if it is set.
  abbrev pub hooked :
      Option (ℤ → Action (World D) Error (Account D))
      → (ℤ → Action (World D) Error (Account D))
      → ℤ
      → Action (World D) Error (Account D)
  hooked none own = own
  hooked (some hook) own = hook

  abbrev pub mock_accounts : AccountErrors D → AccountRepository D (World D) (Unit {0})
  mock_accounts m = record {
    create = λ a. unless m.create_error (λ w. add_account a w (w.accounts a.account_id));
    get_by_id = λ id. unless m.get_by_id_error (λ w. found_account w (w.accounts id));
    get_by_id_for_update = λ tx.
        hooked m.on_get_by_id_for_update
          (λ id. unless m.get_by_id_for_update_error (λ w. found_account w (w.accounts id)));
    update_balance = λ tx id balance.
        unless m.update_balance_error (λ w. put_balance id balance w (w.accounts id));
    exists = λ id. unless m.exists_error (λ w. (ok (is_there (w.accounts id)), w));
    begin_tx = unless m.begin_tx_error (pure tt);
  }

  -- `m.transactions[id]`
  unfoldable pub find_transaction : ℤ → List (Transaction D) → Option (Transaction D)
  find_transaction id [] = none
  find_transaction id (t ∷ ts) = if t.transaction_id ==ℤ id then some t else find_transaction id ts

  -- `m.transactions[t.TransactionID] = t`
  unfoldable pub put_transaction : Transaction D → List (Transaction D) → List (Transaction D)
  put_transaction t [] = t ∷ []
  put_transaction t (u ∷ ts) =
      if u.transaction_id ==ℤ t.transaction_id then t ∷ ts else u ∷ put_transaction t ts

  abbrev pub numbered : World D → Transaction D → Transaction D
  numbered w t = record t { transaction_id = w.next_id }

  abbrev pub add_transaction : Transaction D → Action (World D) Error (Transaction D)
  add_transaction t w = (
    ok (numbered w t),
    record w {
      next_id = w.next_id +ℤ pos 1;
      transactions = put_transaction (copy_transaction (numbered w t)) w.transactions;
    },
  )

  abbrev pub found_transaction :
      World D → Option (Transaction D) → Result Error (Transaction D) × World D
  found_transaction w none = (err err_transfer_not_found, w)
  found_transaction w (some t) = (ok (copy_transaction t), w)

  -- The records of an account, in the order of the range.
  unfoldable pub of_account : ℤ → List (Transaction D) → List (Transaction D)
  of_account id [] = []
  of_account id (t ∷ ts) =
      if (t.source_account_id ==ℤ id) || (t.destination_account_id ==ℤ id)
      then t ∷ of_account id ts
      else of_account id ts

  -- `ts[from:to]`; the panic of a slice out of bounds is written as an error.
  abbrev pub slice : ℤ → ℤ → List (Transaction D) → Result Error (List (Transaction D))
  slice (pos from) (pos to) ts =
      if ltb to from
      then err (plain "slice bounds out of range")
      else ok (take (to - from) (drop from ts))
  slice from to ts = err (plain "slice bounds out of range")

  abbrev pub page_of : ℤ → ℤ → List (Transaction D) → Result Error (List (Transaction D))
  page_of limit offset ts =
      let count = pos (length ts) in
      let end = wrap64 (offset +ℤ limit) in
      if leb_ℤ count offset then ok [] else slice offset (if ltb_ℤ count end then count else end) ts

  abbrev pub mock_transactions : TransactionErrors D → TransactionRepository D (World D) (Unit {0})
  mock_transactions m = record {
    create = λ tx t. unless m.create_error (add_transaction t);
    get_by_id = λ id.
        unless m.get_by_id_error (λ w. found_transaction w (find_transaction id w.transactions));
    get_by_account_id = λ id limit offset.
        unless m.get_by_account_id_error
          (λ w. (page_of limit offset (of_account id w.transactions), w));
  }

  -- `SetAccount` and `SetTransaction`, by which a test fills the maps.
  abbrev pub set_account : Account D → World D → World D
  set_account a w = record w { accounts = update a.account_id a w.accounts }

  abbrev pub set_transaction : Transaction D → World D → World D
  set_transaction t w = record w { transactions = put_transaction t w.transactions }

  -- The services over both mocks: `Commit` and `Rollback` of `MockTx` do nothing.
  abbrev pub mock_backend :
      AccountErrors D → TransactionErrors D → (ℤ → World D → Option Error × World D) → Backend D
  mock_backend accounts transactions wait = record {
    World = World D;
    Tx = Unit;
    accounts = mock_accounts accounts;
    transactions = mock_transactions transactions;
    commit = λ tx. pure tt;
    rollback = λ tx. pure tt;
    wait = wait;
  }
