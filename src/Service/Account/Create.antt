-- ===== src/Service/Account/Create.antt =====
-- `CreateAccount`: the account is in the ledger with the balance that was asked for, or nothing has
-- changed and the error says why, or the answer to the insertion was lost.
use internal_transfers_syste.Base.{
  ◌≡◌, refl, sym, ◌∙◌, ap, subst, ◌≢◌, ◌⊎◌, inl, inr, Bool, true, false, none, some, Bool-cases,
  if◌then◌else◌,
}
use internal_transfers_syste.Base.Action.{Result, ok, err, Post}
use internal_transfers_syste.Models.{
  Error, domain_cause, wrap_error, err_invalid_amount, err_account_already_exists,
  code_database_error, DecimalLib, Exact, parse_money, Account, CreateAccountRequest, zero_time,
}
use internal_transfers_syste.Interfaces.{Backend}
use internal_transfers_syste.Interfaces.Ledger.{Ledger, set_balance}
use internal_transfers_syste.Interfaces.Contract.{IsLawful}
use internal_transfers_syste.Service.Account.{
  is_duplicate_key_error, after_create, after_exists, create_account,
}

module _ {D : DecimalLib} (X : Exact D) {B : Backend D} (law : IsLawful X B) (L : Ledger X.Quantity)
    (req : CreateAccountRequest) where
  open X use {Quantity, value, origin, lt}
  open law use {Fault, Lost, committed}

  -- The account is new, and in the ledger.
  abbrev pub Created : D.Decimal → Ledger Quantity → Type 0
  Created balance M =
      (L.balances req.account_id ≡ none) × (M ≡ set_balance req.account_id (value balance) L)

  -- What the service makes of an error of the insertion: one whose text looks like a duplicate key
  -- is reported as such, whatever it is.
  abbrev pub Reported : Error → Error → Type 0
  Reported f e =
      ((is_duplicate_key_error (some f) ≡ true) × (e ≡ err_account_already_exists))
      ⊎ ((is_duplicate_key_error (some f) ≡ false)
          × (e ≡ domain_cause code_database_error "failed to create account" f))

  abbrev pub NoBalance : Type 0
  NoBalance =
      ((f : Error) × (parse_money D req.initial_balance ≡ err f))
      ⊎ ((balance : D.Decimal) × (parse_money D req.initial_balance ≡ ok balance)
          × (lt (value balance) origin ≡ true))

  abbrev pub new_account : D.Decimal → Account D
  new_account balance = record {
    account_id = req.account_id;
    balance = balance;
    created_at = zero_time;
    updated_at = zero_time;
  }

  -- What the two calls of the repository answer, for a service that is called in the world `start`.
  abbrev pub CheckFails : B.World → Error → Type 0
  CheckFails start f = (B.accounts.exists req.account_id start).0 ≡ err f

  abbrev pub InsertionFails : B.World → D.Decimal → Error → Type 0
  InsertionFails start balance f =
      (B.accounts.create (new_account balance) (B.accounts.exists req.account_id start).1).0 ≡ err f

  -- Nothing has changed, and why.
  abbrev pub Declined : B.World → Error → Type 0
  Declined start e =
      (NoBalance × (e ≡ err_invalid_amount))
      ⊎ ((L.balances req.account_id ≢ none) × (e ≡ err_account_already_exists))
      ⊎ ((f : Error) × Fault f
          × ((CheckFails start f
                × (e ≡ domain_cause code_database_error "failed to check account existence" f))
              ⊎ ((balance : D.Decimal) × (parse_money D req.initial_balance ≡ ok balance)
                  × InsertionFails start balance f
                  × Reported f e)))

  -- The account was inserted, and the answer to the insertion was an error.
  abbrev pub Unconfirmed : B.World → Error → Ledger Quantity → Type 0
  Unconfirmed start e M =
      (balance : D.Decimal) × (parse_money D req.initial_balance ≡ ok balance)
      × Created balance M
      × (f : Error) × Lost f
      × InsertionFails start balance f
      × Reported f e

  abbrev pub Outcome : B.World → Result Error (Account D) × B.World → Type 0
  Outcome start =
      Post
        (λ a w.
          (balance : D.Decimal) × (parse_money D req.initial_balance ≡ ok balance)
          × (lt (value balance) origin ≡ false)
          × Created balance (committed w)
          × (a.account_id ≡ req.account_id)
          × (a.balance ≡ balance))
        (λ e w. ((committed w ≡ L) × Declined start e) ⊎ Unconfirmed start e (committed w))

  -- The error that the service returns for the error `f` of the insertion.
  report :
      (f : Error) (w : B.World)
      → (e : Error) × (after_create B (err f, w) ≡ (err e, w)) × Reported f e
  unfolding wrap_error
  report f w = elim (Bool-cases (is_duplicate_key_error (some f))) [
    | inl looks ↦ (_, rw looks refl, inl (looks, refl))
    | inr other ↦ (_, rw other refl, inr (other, refl))
  ]

  -- From the guards on, for a balance that passes them.
  module _ (balance : D.Decimal) (parsed : parse_money D req.initial_balance ≡ ok balance)
      (nonneg : lt (value balance) origin ≡ false) (start : B.World) where
    reported :
        (f : Error) (w : B.World)
        → ((e : Error)
            → Reported f e
            → ((committed w ≡ L) × Declined start e) ⊎ Unconfirmed start e (committed w))
        → Outcome start (after_create B (err f, w))
    reported f w h = let (e, same, how) = report f w in subst (Outcome start) (sym same) (h e how)

    created :
        L.balances req.account_id ≡ none
        → (x : Result Error (Account D) × B.World)
        → (B.accounts.create (new_account balance) (B.accounts.exists req.account_id start).1).0
          ≡ x.0
        → Post
            (λ b w.
              (committed w ≡ set_balance req.account_id (value balance) L)
              × (L.balances req.account_id ≡ none)
              × (b.account_id ≡ req.account_id)
              × (b.balance ≡ balance))
            (λ e w.
              ((committed w ≡ L) × (L.balances req.account_id ≢ none) × law.Duplicate e)
              ⊎ ((committed w ≡ L) × (lt (value balance) origin ≡ true))
              ⊎ (((committed w ≡ L) × Fault e)
                  ⊎ ((committed w ≡ set_balance req.account_id (value balance) L) × Lost e)))
            x
        → Outcome start (after_create B x)
    created absent (ok a, w) run (now, _, id, same) =
        (balance, parsed, nonneg, (absent, now), id, same)
    created absent (err f, w) run (inl (_, there, _)) = absurd (there absent)
    created absent (err f, w) run (inr (inl (_, below))) = cc (nonneg, below)
    created absent (err f, w) run (inr (inr (inl (same, fault)))) =
        reported f w (λ e how. inl (same, inr (inr (f, fault, inr (balance, parsed, run, how)))))
    created absent (err f, w) run (inr (inr (inr (now, lost)))) =
        reported f w (λ e how. inr (balance, parsed, (absent, now), f, lost, run, how))

    checked :
        (x : Result Error Bool × B.World)
        → B.accounts.exists req.account_id start ≡ x
        → Post
            (λ there w.
              (committed w ≡ L)
              × (((there ≡ true) × (L.balances req.account_id ≢ none))
                  ⊎ ((there ≡ false) × (L.balances req.account_id ≡ none))))
            (λ e w. (committed w ≡ L) × Fault e)
            x
        → Outcome start (after_exists B req.account_id balance x)
    unfolding wrap_error
    checked (err f, w) run (same, fault) =
        inl (same, inr (inr (f, fault, inl (ap (λ y. y.0) run, refl))))
    checked (ok true, w) run (same, inl (_, there)) = inl (same, inr (inl (there, refl)))
    checked (ok true, w) run (same, inr (no_way, _)) = cc
    checked (ok false, w) run (same, inl (no_way, _)) = cc
    checked (ok false, w) run (same, inr (_, absent)) =
        created absent (B.accounts.create (new_account balance) w)
          (ap (λ (y : Result Error Bool × B.World). (B.accounts.create (new_account balance) y.1).0)
            run)
          ((law.create-Triple L (new_account balance)).run w same)

  zero_test : (a : D.Decimal) → D.less_than a D.zero ≡ lt (value a) origin
  zero_test a = X.less_than-lt a D.zero ∙ ap (lt (value a)) X.value-zero

  guarded :
      (w : B.World)
      → committed w ≡ L
      → (r : Result Error D.Decimal) → parse_money D req.initial_balance ≡ r
      → Outcome w (elim r [
        | err e ↦ (err err_invalid_amount, w)
        | ok balance ↦
            if D.less_than balance D.zero
            then (err err_invalid_amount, w)
            else after_exists B req.account_id balance (B.accounts.exists req.account_id w)
      ])
  guarded w h (err e) parsed = inl (h, inl (inl (e, parsed), refl))
  guarded w h (ok balance) parsed = elim (Bool-cases (D.less_than balance D.zero)) [
    | inl below ↦
        rw below (inl (h, inl (inr (balance, parsed, sym (zero_test balance) ∙ below), refl)))
    | inr fine ↦ rw fine (
        checked balance parsed (sym (zero_test balance) ∙ fine) w
          (B.accounts.exists req.account_id w) refl ((law.exists-Triple L req.account_id).run w h))
  ]

  -- Over a lawful backend: if `CreateAccount` returns an account, it was not there before, its initial
  -- balance is a number that is not negative, and the ledger has it with that balance and is otherwise
  -- as it was; if it returns an error, either the ledger is as it was and the error says why (no such
  -- balance, the account is there, an error of the environment at one of the two calls of the repository),
  -- or the account was created and the answer to the insertion, which was an error, was lost.
  pub create_account-Outcome : (w : B.World) → committed w ≡ L → Outcome w (create_account B req w)
  unfolding create_account
  create_account-Outcome w h = guarded w h (parse_money D req.initial_balance) refl
