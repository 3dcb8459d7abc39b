-- ===== src/Repository/Duplicate.antt =====
-- `isDuplicateKeyError` reads the text of an error in which the repository has put the account's id.
use mathlib.Core.Bool.{◌||◌}
use internal_transfers_syste.Base.{◌≡◌, refl, ap, String, ◌<>◌, Bool, true, false, some, arith}
use internal_transfers_syste.Base.Int.{ℤ}
use internal_transfers_syste.Base.Text.{
  codes, contains, codes-append, contains-append_left, contains-append_right,
}
use internal_transfers_syste.Base.Format.{format_int}
use internal_transfers_syste.Base.Action.{ok, err, map_result, and_then}
use internal_transfers_syste.Models.{
  Error, error_text, err_account_already_exists, DecimalLib, Account, parse_money,
  CreateAccountRequest, zero_time,
}
use internal_transfers_syste.Service.Account.{is_duplicate_key_error, create_account}
use internal_transfers_syste.Repository.{repositories}
use internal_transfers_syste.Repository.Driver.{Pgx, insert_account, account_exists}
use internal_transfers_syste.Repository.Account.{about_account, exists, create, with_times}

-- The id of an account has the digits of the state that PostgreSQL reports duplicates by.
abbrev pub HoldsState : ℤ → Type 0
HoldsState id = contains (codes (format_int id)) (codes "23505") ≡ true

either : (a b : Bool) → b ≡ true → (a || b) ≡ true
either a b h = ground arith

-- A text with the id in the middle holds what the id's digits hold.
contains_middle :
    (before after text : String) (id : ℤ)
    → HoldsState id
    → contains (codes ((before <> (format_int id <> after)) <> text)) (codes "23505") ≡ true
contains_middle before after text id h =
    rw (codes-append, codes-append, codes-append)
      (contains-append_left _ _ (codes "23505") (
        contains-append_right (codes before) _ (codes "23505")
          (contains-append_left (codes (format_int id)) _ (codes "23505") h)))

looks_duplicate :
    (id : ℤ) (e : Error)
    → HoldsState id
    → is_duplicate_key_error (some (about_account "insert account " id "" e)) ≡ true
unfolding is_duplicate_key_error error_text
looks_duplicate id e h =
    either
      (contains (codes (error_text (about_account "insert account " id "" e)))
        (codes "duplicate key"))
      (contains (codes (error_text (about_account "insert account " id "" e))) (codes "23505"))
      (contains_middle "insert account " ("" <> ": ") (error_text e) id h)

module _ {D : DecimalLib} (P : Pgx D) where
  open P use {World}

  abbrev new_account : CreateAccountRequest → D.Decimal → Account D
  new_account req balance = record {
    account_id = req.account_id;
    balance = balance;
    created_at = zero_time;
    updated_at = zero_time;
  }

  insert_failed :
      (req : CreateAccountRequest) (balance : D.Decimal) (e : Error) (w w' : World)
      → P.query_row (insert_account req.account_id balance) w ≡ (err e, w')
      → create P (new_account req balance) w
        ≡ (err (about_account "insert account " req.account_id "" e), w')
  unfolding create
  insert_failed req balance e w w' failed =
      ap
        (λ x.
          and_then (with_times P (new_account req balance))
            (map_result (about_account "insert account " req.account_id "") x))
        failed

  -- Over the repositories: if the digits of a new account's id hold 23505, the balance is a number that
  -- is not negative, the account is not there, and its insertion fails for any reason whatever, then
  -- `CreateAccount` returns that the account exists already.
  pub create_account_misreports :
      (req : CreateAccountRequest) (balance : D.Decimal) (e : Error) (w w₁ w₂ : World)
      → HoldsState req.account_id
      → parse_money D req.initial_balance ≡ ok balance
      → D.less_than balance D.zero ≡ false
      → P.query_row (account_exists req.account_id) w ≡ (ok false, w₁)
      → P.query_row (insert_account req.account_id balance) w₁ ≡ (err e, w₂)
      → create_account (repositories P) req w ≡ (err err_account_already_exists, w₂)
  unfolding create_account exists create
  create_account_misreports req balance e w w₁ w₂ holds parsed fine absent failed =
      let not_there : exists P req.account_id w ≡ (ok false, w₁) =
        ap (map_result (about_account "check account " req.account_id " exists")) absent in
      rw (parsed, fine, not_there, create_account)
        (rw (insert_failed req balance e w₁ w₂ failed, looks_duplicate req.account_id e holds) refl)
