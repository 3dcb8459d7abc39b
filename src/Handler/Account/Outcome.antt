-- ===== src/Handler/Account/Outcome.antt =====
-- The endpoints for accounts, from the request to the ledger and back.
use internal_transfers_syste.Base.{
  false, ℕ, ◌≡◌, refl, ◌⊎◌, inl, inr, true, Option, none, some, String, [], ◌∷◌, ◌++◌, arith,
  Bool-cases,
}
use internal_transfers_syste.Base.Int.{ℤ, pos, leb_ℤ, ◌≤ℤ◌}
use internal_transfers_syste.Base.Action.{Result, ok, err, Post}
use internal_transfers_syste.Models.{
  Error, err_account_not_found, DecimalLib, Exact, Account, CreateAccountRequest, parse_money,
}
use internal_transfers_syste.Interfaces.{Backend}
use internal_transfers_syste.Interfaces.Ledger.{Ledger}
use internal_transfers_syste.Interfaces.Contract.{IsLawful}
use internal_transfers_syste.Service.Account
use internal_transfers_syste.Service.Account.Create
use internal_transfers_syste.Validator.{ValidationErrors, validate_create_account}
use internal_transfers_syste.Handler.Response.{Writer, write_error, write_success}
use internal_transfers_syste.Handler.Response
use internal_transfers_syste.Handler.ServiceError.{handle_service_error}
use internal_transfers_syste.Handler.Failed.{
  write_json-status, write_json-body, Failed, handle_service_error-Failed, validation-Failed,
  invalid_json-Failed, write_error-Failed,
}
use internal_transfers_syste.Handler.Request.{JsonLib, decode_json_body, parse_int}
use internal_transfers_syste.Handler.Account.{
  account_response, respond_account, get_parsed, get_account, create_validated, create_decoded,
  create_account,
}

module _ {D : DecimalLib} (X : Exact D) {B : Backend D} (law : IsLawful X B) (L : Ledger X.Quantity)
    (out : Writer) (fresh : out.status ≡ none) where
  open X use {value}
  open law use {committed}

  -- The response shows an account.
  abbrev pub Shown : ℕ → Account D → Writer → Type 0
  Shown status a sent =
      (sent.status ≡ some status)
      × (sent.body ≡ out.body ++ (Response.account (account_response B a) ∷ []))

  module _ (id : String) where
    -- The path names an account of the ledger, and the response has its balance.
    abbrev pub Found : Writer → Type 0
    Found sent =
        (i : ℤ) × (a : Account D) × (parse_int id ≡ some i)
        × (a.account_id ≡ i)
        × (L.balances i ≡ some (value a.balance))
        × Shown 200 a sent

    -- Why the account is not shown, to a request in the world `start`.
    abbrev pub NotFound : B.World → Type 0
    NotFound start =
        (parse_int id ≡ none)
        ⊎ ((i : ℤ) × (parse_int id ≡ some i)
            × ((i ≤ℤ pos 0)
                ⊎ (L.balances i ≡ none)
                ⊎ ((e : Error) × law.Fault e × ((B.accounts.get_by_id i start).0 ≡ err e))))

    -- What the endpoint leaves: the ledger is as it was.
    abbrev pub Answered : B.World → Writer × B.World → Type 0
    Answered start x = (committed x.1 ≡ L) × (Found x.0 ⊎ (NotFound start × Failed x.0))

    looked_up :
        (start : B.World) (i : ℤ)
        → parse_int id ≡ some i
        → (x : Result Error (Account D) × B.World) → (B.accounts.get_by_id i start).0 ≡ x.0
        → Post
            (λ a w.
              (committed w ≡ L) × (a.account_id ≡ i) × (L.balances i ≡ some (value a.balance)))
            (λ e w.
              (committed w ≡ L)
              × (((L.balances i ≡ none) × (e ≡ err_account_not_found)) ⊎ law.Fault e))
            x
        → Answered start (respond_account B 200 out x)
    unfolding write_success
    looked_up start i parsed (ok a, w) run (same, this, has) = (
      same,
      inl (
        i,
        a,
        parsed,
        this,
        has,
        (write_json-status _ _ out fresh, write_json-body _ _ out fresh),
      ),
    )
    looked_up start i parsed (err e, w) run (same, inl (absent, _)) =
        (same, inr (inr (i, parsed, inr (inl absent)), handle_service_error-Failed e out fresh))
    looked_up start i parsed (err e, w) run (same, inr fault) = (
      same,
      inr (inr (i, parsed, inr (inr (e, fault, run))), handle_service_error-Failed e out fresh),
    )

    low : (i : ℤ) → leb_ℤ i (pos 0) ≡ true → i ≤ℤ pos 0
    low i h = ground arith

    parsed-Answered :
        (w : B.World)
        → committed w ≡ L
        → (o : Option ℤ) → parse_int id ≡ o
        → Answered w (get_parsed B out w o)
    unfolding Account.get_account
    parsed-Answered w h none parsed =
        (h, inr (inl parsed, write_error-Failed 400 _ _ out (omega arith) fresh))
    parsed-Answered w h (some i) parsed = elim (Bool-cases (leb_ℤ i (pos 0))) [
      | inl below ↦ rw below (
        h,
        inr (
          inr (i, parsed, inl (low i below)),
          write_error-Failed 400 _ _ out (omega arith) fresh,
        ),
      )
      | inr above ↦ rw above (
          looked_up w i parsed (B.accounts.get_by_id i w) refl ((law.get_by_id-Triple L i).run w h))
    ]

    -- Over a lawful backend, with a response not yet begun, the endpoint leaves the ledger as it was. It
    -- answers 200 with the balance that the ledger has for the account in the path; or it answers with
    -- a status of 400 or above, and the path is no integer, or not positive, or names no account of
    -- the ledger, or the lookup of the account returned an error of the environment.
    pub get_account-Answered : (w : B.World) → committed w ≡ L → Answered w (get_account B id out w)
    unfolding get_account
    get_account-Answered w h = parsed-Answered w h (parse_int id) refl

  module _ (J : JsonLib) (body : J.Body) where
    -- The response shows the account that the body asks for, and it is new in the ledger.
    abbrev pub Opened : Writer × B.World → Type 0
    Opened (sent, w) =
        (req : CreateAccountRequest) × (balance : D.Decimal) × (a : Account D) × (decode_json_body J
            J.decode_account body
          ≡ ok req)
        × (validate_create_account D req ≡ [])
        × (parse_money D req.initial_balance ≡ ok balance)
        × (X.lt (value balance) X.origin ≡ false)
        × (a.account_id ≡ req.account_id)
        × (a.balance ≡ balance)
        × Create.Created X law L req balance (committed w)
        × Shown 201 a sent

    -- The response, to a request in the world `start`, reports a failure; the ledger is as it was, or it
    -- has the account that the body asks for, and the error that the insertion returned was an answer
    -- that was lost.
    abbrev pub NotOpened : B.World → Writer × B.World → Type 0
    NotOpened start (sent, w) =
        Failed sent
        × ((committed w ≡ L)
            ⊎ ((req : CreateAccountRequest) × (e : Error) × (decode_json_body J J.decode_account
                    body
                  ≡ ok req)
                × (validate_create_account D req ≡ [])
                × Create.Unconfirmed X law L req start e (committed w)
                × (sent ≡ handle_service_error e out)))

    responded :
        (start : B.World) (req : CreateAccountRequest)
        → decode_json_body J J.decode_account body ≡ ok req
        → validate_create_account D req ≡ []
        → (x : Result Error (Account D) × B.World) → Create.Outcome X law L req start x
        → Opened (respond_account B 201 out x) ⊎ NotOpened start (respond_account B 201 out x)
    unfolding write_success
    responded start req decoded fine (ok a, w)
          (balance, parsed, fine_balance, created, this, same) =
        inl (
          req,
          balance,
          a,
          decoded,
          fine,
          parsed,
          fine_balance,
          this,
          same,
          created,
          (write_json-status _ _ out fresh, write_json-body _ _ out fresh),
        )
    responded start req decoded fine (err e, w) (inl (same, why)) =
        inr (handle_service_error-Failed e out fresh, inl same)
    responded start req decoded fine (err e, w) (inr unconfirmed) =
        inr
          (handle_service_error-Failed e out fresh, inr (req, e, decoded, fine, unconfirmed, refl))

    validated :
        (req : CreateAccountRequest)
        → decode_json_body J J.decode_account body ≡ ok req
        → (w : B.World) → committed w ≡ L
        → (errs : ValidationErrors) → validate_create_account D req ≡ errs
        → Opened (create_validated B J req out w errs)
          ⊎ NotOpened w (create_validated B J req out w errs)
    validated req decoded w h [] fine =
        responded w req decoded fine (Account.create_account B req w)
          (Create.create_account-Outcome X law L req w h)
    validated req decoded w h (e ∷ es) _ = inr (validation-Failed (e ∷ es) out fresh, inl h)

    by_body :
        (w : B.World)
        → committed w ≡ L
        → (r : Result Error CreateAccountRequest) → decode_json_body J J.decode_account body ≡ r
        → Opened (create_decoded B J out w r) ⊎ NotOpened w (create_decoded B J out w r)
    by_body w h (err e) decoded = inr (invalid_json-Failed out fresh, inl h)
    by_body w h (ok req) decoded = validated req decoded w h (validate_create_account D req) refl

    -- Over a lawful backend, with a response not yet begun, the endpoint answers 201 with the account
    -- that the body asks for, to which the validator has no objection, whose balance is not below zero,
    -- and which was not there before and now is in the ledger; or it answers with a status of 400 or
    -- above, and either the ledger is as it was, or the insertion of that same account took effect but
    -- returned an error, its answer being lost, and the response is the one for this error.
    pub create_account_opens :
        (w : B.World)
        → committed w ≡ L
        → Opened (create_account B J body out w) ⊎ NotOpened w (create_account B J body out w)
    unfolding create_account
    create_account_opens w h = by_body w h (decode_json_body J J.decode_account body) refl
