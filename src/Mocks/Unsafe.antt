-- ===== src/Mocks/Unsafe.antt =====
-- `executeTransfer` over internal/mocks.
use internal_transfers_syste.Base.{
  ◌≡◌, refl, sym, ◌∙◌, ◌≢◌, inl, inr, true, false, Option, none, some, Bool-cases,
}
use internal_transfers_syste.Base.Int.{ℤ, ltb_ℤ, ◌==ℤ◌, ==ℤ_refl, ==ℤ_ne}
use internal_transfers_syste.Base.Action.{Result, ok, err, pure, and_then, map_result, ◌>>◌}
use internal_transfers_syste.Models.{
  Error, wrap_error, code_database_error, DecimalLib, Account, Transaction,
}
use internal_transfers_syste.Interfaces.{Backend}
use internal_transfers_syste.Interfaces.Ledger.{update, update_ne}
use internal_transfers_syste.Service.Transfer.{
  or_database_error, new_transaction, move_money, in_transaction, execute_transfer,
}
use internal_transfers_syste.Mocks.{
  World, AccountErrors, TransactionErrors, mock_backend, add_transaction, unless, copy_account,
}

module _ {D : DecimalLib} (transactions : TransactionErrors D)
    (wait : ℤ → World D → Option Error × World D) where
  -- No error is set in the accounts.
  abbrev pub no_errors : AccountErrors D
  no_errors = record {
    create_error = none;
    get_by_id_error = none;
    get_by_id_for_update_error = none;
    update_balance_error = none;
    exists_error = none;
    begin_tx_error = none;
    on_get_by_id_for_update = none;
  }

  -- The services over the mocks.
  abbrev pub mocked : Backend D
  mocked = mock_backend no_errors transactions wait

  module _ (amount : D.Decimal) (w : World D) (a b : Account D) where
    -- Both balances are as after the transfer.
    abbrev pub paid : World D
    paid = record w {
      accounts =
          update b.account_id (record b { balance = D.add b.balance amount })
            (update a.account_id (record a { balance = D.sub a.balance amount }) w.accounts);
    }

    abbrev pub recorded :
        Result Error (Transaction D) × World D → Result Error (Transaction D) × World D
    recorded (ok t, v) = (ok t, v)
    recorded (err e, v) =
        (err (wrap_error code_database_error "failed to create transaction record" (some e)), v)

    -- What becomes of the record decides how the transfer ends, and nothing else.
    abbrev pub mocked_end : Result Error (Transaction D) × World D
    mocked_end = recorded (
        unless transactions.create_error
          (add_transaction (new_transaction a.account_id b.account_id amount)) paid)

    after_record :
        (x : Result Error (Transaction D) × World D)
        → and_then
            (λ t.
              or_database_error "failed to commit transaction" (pure {W = World D} tt) >> pure t)
            (map_result
              (λ e. wrap_error code_database_error "failed to create transaction record" (some e))
              x)
          ≡ recorded x
    after_record (ok t, v) = refl
    after_record (err e, v) = refl

    module _ (ne : a.account_id ≢ b.account_id) (there_a : w.accounts a.account_id ≡ some a)
        (there_b : w.accounts b.account_id ≡ some b)
        (enough : D.less_than a.balance amount ≡ false) where
      moved :
          move_money mocked tt a.account_id b.account_id amount (copy_account a) (copy_account b) w
          ≡ mocked_end
      unfolding move_money
      moved =
          let still_b : update a.account_id (record a { balance = D.sub a.balance amount })
                w.accounts b.account_id
              ≡ some b =
            update_ne a.account_id b.account_id _ w.accounts (λ e. ne (sym e)) ∙ there_b in
          rw enough (
            rw there_a (
              rw still_b (
                after_record (
                  unless transactions.create_error
                    (add_transaction (new_transaction a.account_id b.account_id amount)) paid))))

      in_either_order : in_transaction mocked tt a.account_id b.account_id amount w ≡ mocked_end
      unfolding in_transaction
      in_either_order = elim (Bool-cases (ltb_ℤ b.account_id a.account_id)) [
        | inl lower ↦
            let differ : (b.account_id ==ℤ a.account_id) ≡ false =
              ==ℤ_ne b.account_id a.account_id (λ e. ne (sym e)) in
            rw lower (rw there_b (rw there_a (rw differ moved)))
        | inr higher ↦
            let same : (a.account_id ==ℤ a.account_id) ≡ true = ==ℤ_refl a.account_id in
            rw higher (rw there_a (rw there_b (rw same moved)))
      ]

      -- Over the mocks without an error in the accounts, between two different accounts that are stored
      -- under their ids, the first of which holds the amount, `executeTransfer` leaves both balances
      -- as after the transfer; it returns the record, or the error that is set for `Create`, and in
      -- this case too the balances stay as they are, since nothing is rolled back.
      pub execute_transfer-mocked :
          execute_transfer mocked a.account_id b.account_id amount w ≡ mocked_end
      unfolding execute_transfer
      execute_transfer-mocked = in_either_order
