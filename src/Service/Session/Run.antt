-- ===== src/Service/Session/Run.antt =====
-- The machine of calls beside the function `executeTransfer` of internal/service/transfer_service.go.
use internal_transfers_syste.Base.{
  ℕ, zero, suc, ◌≤◌, ◌-◌, ◌≡◌, refl, sym, ◌∙◌, ap, arith, Bool-cases, inl, inr, some, String,
}
use internal_transfers_syste.Base.Action.{
  Result, ok, err, Action, pure, map_result, and_then, ◌>>=◌, ◌>>◌,
}
use internal_transfers_syste.Models.{
  Error, wrap_error, code_database_error, DecimalLib, Account, Transaction,
}
use internal_transfers_syste.Interfaces.{Backend}
use internal_transfers_syste.Service.Transfer.{
  or_database_error, source_of, destination_of, new_transaction, move_money, in_transaction,
  deferring_rollback, execute_transfer,
}
use internal_transfers_syste.Service.Session.Rank.{
  rank-after_begin, rank-after_first, rank-after_second, rank-after_debit, rank-after_credit,
  rank-after_record, rank-after_commit,
}
use internal_transfers_syste.Service.Session.{
  Order, Pc, beginning, locking_first, locking_second, debiting, crediting, recording, committing,
  rolling_back, returned, rank, first_id, second_id, after_begin, after_first, after_second,
  after_debit, after_credit, after_record, after_commit, checked, fail, answer, call, calls,
}

module _ {D : DecimalLib} (B : Backend D) (order : Order D) where
  open B use {World, Tx}
  open order use {source_id, dest_id, amount}

  -- What `executeTransfer` still does from each point on.
  abbrev commits : Tx → Transaction D → Action World Error (Transaction D)
  commits tx t = or_database_error "failed to commit transaction" (B.commit tx) >> pure t

  abbrev records : Tx → Action World Error (Transaction D)
  records tx =
      or_database_error "failed to create transaction record"
        (B.transactions.create tx (new_transaction source_id dest_id amount))
      >>= commits tx

  abbrev credits : Tx → Account D → Action World Error (Transaction D)
  credits tx dest =
      or_database_error "failed to update destination balance"
        (B.accounts.update_balance tx dest.account_id (D.add dest.balance amount))
      >> records tx

  abbrev debits : Tx → Account D → Account D → Action World Error (Transaction D)
  debits tx source dest =
      or_database_error "failed to update source balance"
        (B.accounts.update_balance tx source.account_id (D.sub source.balance amount))
      >> credits tx dest

  abbrev second_locks : Tx → Account D → Action World Error (Transaction D)
  second_locks tx first = B.accounts.get_by_id_for_update tx (second_id order) >>= λ second.
      move_money B tx source_id dest_id amount (source_of (first_id order) source_id first second)
        (destination_of (first_id order) source_id first second)

  rest : Pc D Tx → Action World Error (Transaction D)
  rest beginning = execute_transfer B source_id dest_id amount
  rest (locking_first tx) = deferring_rollback B tx (in_transaction B tx source_id dest_id amount)
  rest (locking_second tx first) = deferring_rollback B tx (second_locks tx first)
  rest (debiting tx source dest) = deferring_rollback B tx (debits tx source dest)
  rest (crediting tx dest) = deferring_rollback B tx (credits tx dest)
  rest (recording tx) = deferring_rollback B tx (records tx)
  rest (committing tx t) = deferring_rollback B tx (commits tx t)
  rest (rolling_back tx r) = deferring_rollback B tx (λ w. (r, w))
  rest (returned r) = λ w. (r, w)

  -- What each answer leaves to do.
  begun :
      (x : Result Error Tx × World)
      → and_then
          (λ tx. deferring_rollback B tx (in_transaction B tx source_id dest_id amount))
          (map_result
            (λ e. wrap_error code_database_error "failed to begin transaction" (some e))
            x)
        ≡ rest (after_begin order x.0) x.1
  unfolding rest
  begun (ok tx, v) = refl
  begun (err e, v) = refl

  first_locked :
      (tx : Tx) (x : Result Error (Account D) × World)
      → deferring_rollback B tx (λ _. and_then (second_locks tx) x) x.1
        ≡ rest (after_first order tx x.0) x.1
  unfolding rest
  first_locked tx (ok a, v) = refl
  first_locked tx (err e, v) = refl

  balance_checked :
      (tx : Tx) (source dest : Account D) (v : World)
      → deferring_rollback B tx (move_money B tx source_id dest_id amount source dest) v
        ≡ rest (checked order tx source dest) v
  unfolding rest move_money
  balance_checked tx source dest v = elim (Bool-cases (D.less_than source.balance amount)) [
    | inl short ↦ rw short refl
    | inr enough ↦ rw enough refl
  ]

  second_locked :
      (tx : Tx) (first : Account D) (x : Result Error (Account D) × World)
      → deferring_rollback B tx
          (λ _.
            and_then
              (λ second.
                move_money B tx source_id dest_id amount
                  (source_of (first_id order) source_id first second)
                  (destination_of (first_id order) source_id first second))
              x)
          x.1
        ≡ rest (after_second order tx first x.0) x.1
  unfolding rest
  second_locked tx first (ok second, v) =
      balance_checked tx (source_of (first_id order) source_id first second)
        (destination_of (first_id order) source_id first second) v
  second_locked tx first (err e, v) = refl

  -- An answer under a database error, in the middle of the transaction.
  resumed :
      {A : Type 0} (tx : Tx) (message : String) (k : A → Action World Error (Transaction D))
      (after : Result Error A → Pc D Tx)
      → ((a : A) (v : World) → deferring_rollback B tx (k a) v ≡ rest (after (ok a)) v)
      → ((e : Error) → after (err e) ≡ fail order tx message e)
      → (x : Result Error A × World)
      → deferring_rollback B tx
          (λ _. and_then k (map_result (λ e. wrap_error code_database_error message (some e)) x))
          x.1
        ≡ rest (after x.0) x.1
  unfolding rest
  resumed tx message k after good bad (ok a, v) = good a v
  resumed tx message k after good bad (err e, v) = sym (ap (λ p. rest p v) (bad e))

  -- One call leaves the same to do.
  call-rest : (p : Pc D Tx) (w : World) → rest p w ≡ rest (call B order p w).0 (call B order p w).1
  unfolding rest call execute_transfer
  call-rest beginning w = begun (B.accounts.begin_tx w)
  call-rest (locking_first tx) w =
      first_locked tx (B.accounts.get_by_id_for_update tx (first_id order) w)
  call-rest (locking_second tx first) w =
      second_locked tx first (B.accounts.get_by_id_for_update tx (second_id order) w)
  call-rest (debiting tx source dest) w =
      resumed tx _ _ (after_debit order tx dest) (λ a v. refl) (λ e. refl)
        (B.accounts.update_balance tx source.account_id (D.sub source.balance amount) w)
  call-rest (crediting tx dest) w =
      resumed tx _ _ (after_credit order tx) (λ a v. refl) (λ e. refl)
        (B.accounts.update_balance tx dest.account_id (D.add dest.balance amount) w)
  call-rest (recording tx) w =
      resumed tx _ _ (after_record order tx) (λ a v. refl) (λ e. refl)
        (B.transactions.create tx (new_transaction source_id dest_id amount) w)
  call-rest (committing tx t) w =
      resumed tx _ _ (after_commit order tx t) (λ a v. refl) (λ e. refl) (B.commit tx w)
  call-rest (rolling_back tx r) w = refl
  call-rest (returned r) w = refl

  call-rank : (p : Pc D Tx) (w : World) → rank (call B order p w).0 ≤ rank p - 1
  unfolding call
  call-rank beginning w = rank-after_begin order (B.accounts.begin_tx w).0
  call-rank (locking_first tx) w = rank-after_first order tx _
  call-rank (locking_second tx first) w = rank-after_second order tx first _
  call-rank (debiting tx source dest) w = rank-after_debit order tx dest _
  call-rank (crediting tx dest) w = rank-after_credit order tx _
  call-rank (recording tx) w = rank-after_record order tx _
  call-rank (committing tx t) w = rank-after_commit order tx t _
  call-rank (rolling_back tx r) w = omega arith
  call-rank (returned r) w = omega arith

  done_at_zero :
      (p : Pc D Tx) (w : World) → rank p ≤ 0 → calls B order 0 p w ≡ answer returned (rest p w)
  unfolding rest calls
  done_at_zero (returned r) w h = refl
  done_at_zero beginning w h = absurd (omega arith)
  done_at_zero (locking_first tx) w h = absurd (omega arith)
  done_at_zero (locking_second tx first) w h = absurd (omega arith)
  done_at_zero (debiting tx source dest) w h = absurd (omega arith)
  done_at_zero (crediting tx dest) w h = absurd (omega arith)
  done_at_zero (recording tx) w h = absurd (omega arith)
  done_at_zero (committing tx t) w h = absurd (omega arith)
  done_at_zero (rolling_back tx r) w h = absurd (omega arith)

  calls-rest :
      (n : ℕ) (p : Pc D Tx) (w : World)
      → rank p ≤ n
      → calls B order n p w ≡ answer returned (rest p w)
  unfolding calls
  calls-rest zero p w h = done_at_zero p w h
  calls-rest (suc n) p w h =
      calls-rest n (call B order p w).0 (call B order p w).1 (omega (arith, call-rank p w))
      ∙ ap (λ (x : Result Error (Transaction D) × World). answer returned x) (sym (call-rest p w))

  -- From its beginning a session has returned after eight calls, over any backend, with the result of
  -- `executeTransfer` and in the world that it leaves.
  pub calls-execute_transfer :
      (w : World)
      → calls B order 8 beginning w
        ≡ answer returned (execute_transfer B source_id dest_id amount w)
  unfolding rest
  calls-execute_transfer w = calls-rest 8 beginning w (omega arith)
