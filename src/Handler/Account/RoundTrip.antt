-- ===== src/Handler/Account/RoundTrip.antt =====
-- The two endpoints of internal/handler/account_handler.go, one after the other.
use internal_transfers_syste.Base.{
  ◌≡◌, refl, sym, ◌∙◌, ap, inl, inr, none, some, arith, ◌++◌, ◌∷◌, [],
}
use mathlib.Core.Option.{some-injective}
use internal_transfers_syste.Base.Int.{ℤ, pos, pos_part, neg_part, ◌≤ℤ◌, IsInt64}
use internal_transfers_syste.Base.Format.{format_int}
use internal_transfers_syste.Base.Action.{ok}
use internal_transfers_syste.Models.{
  Error, DecimalLib, Exact, Account, CreateAccountRequest, parse_money,
}
use internal_transfers_syste.Interfaces.{Backend}
use internal_transfers_syste.Interfaces.Ledger.{Ledger, update_self}
use internal_transfers_syste.Interfaces.Contract.{IsLawful}
use internal_transfers_syste.Validator.Accepts.{validate_create_account_iff}
use internal_transfers_syste.Handler.Response.{Writer}
use internal_transfers_syste.Handler.Response
use internal_transfers_syste.Handler.Request.{JsonLib, decode_json_body}
use internal_transfers_syste.Handler.Request.Numbers.{parse_int-format_int}
use internal_transfers_syste.Handler.Account.{account_response, create_account, get_account}
use internal_transfers_syste.Handler.Account.Outcome.{
  NotFound, get_account-Answered, create_account_opens,
}

module _ {D : DecimalLib} (X : Exact D) {B : Backend D} (law : IsLawful X B)
    (calm : (e : Error) → ¬ (law.Fault e)) where
  open X use {Quantity, value}
  open law use {committed}

  -- The account `i` of the ledger is shown, with its balance `q`.
  abbrev pub ShowsBalance : ℤ → Quantity → Writer → Writer → Type 0
  ShowsBalance i q out sent =
      (a : Account D) × (a.account_id ≡ i)
      × (value a.balance ≡ q)
      × (sent.status ≡ some 200)
      × (sent.body ≡ out.body ++ (Response.account (account_response B a) ∷ []))

  -- Nothing keeps an account of the ledger from being found at the path that prints its id.
  not_missed :
      (i : ℤ) (q : Quantity) (L : Ledger Quantity) (out : Writer) (fresh : out.status ≡ none)
      → IsInt64 i
      → pos 1 ≤ℤ i
      → L.balances i ≡ some q
      → (w : B.World) → ¬ (NotFound X law L out fresh (format_int i) w)
  not_missed i q L out fresh fits high there w (inl none_read) =
      cc (parse_int-format_int i fits, none_read)
  not_missed i q L out fresh fits high there w (inr (j, read, why)) =
      let same : j ≡ i = some-injective _ _ (sym read ∙ parse_int-format_int i fits) in
      elim why [
        | inl low ↦ omega (arith, ap pos_part same, ap neg_part same)
        | inr (inl missing) ↦ cc
        | inr (inr (e, fault, _)) ↦ calm e fault
      ]

  -- The path that `%d` prints of the id of an account finds it.
  get_printed :
      (i : ℤ) (q : Quantity) (L : Ledger Quantity) (out : Writer) (fresh : out.status ≡ none)
      (w : B.World)
      → IsInt64 i
      → pos 1 ≤ℤ i
      → L.balances i ≡ some q
      → committed w ≡ L
      → ShowsBalance i q out (get_account B (format_int i) out w).0
  get_printed i q L out fresh w fits high there h =
      elim (get_account-Answered X law L out fresh (format_int i) w h).1 [
        | inl (j, a, parsed, this, has, shown) ↦
            let same : j ≡ i = some-injective _ _ (sym parsed ∙ parse_int-format_int i fits) in
            (
              a,
              this ∙ same,
              some-injective _ _ (sym has ∙ ap L.balances same ∙ there),
              shown.0,
              shown.1,
            )
        | inr (why, _) ↦ absurd (not_missed i q L out fresh fits high there w why)
      ]

  -- Over a lawful backend that raises no error of its own: if a response not yet begun is answered with
  -- 201 by the creation of an account, whose id is an `int64`, then a request for the path that `%d`
  -- prints of this id, made next, is answered with 200, this id and the balance that was asked for.
  pub create_account-get_account :
      (J : JsonLib) (body : J.Body)
      (fits : (req : CreateAccountRequest)
        → decode_json_body J J.decode_account body ≡ ok req
        → IsInt64 req.account_id)
      (out again : Writer) (fresh : out.status ≡ none) (fresh_again : again.status ≡ none)
      (w : B.World)
      → (create_account B J body out w).0.status ≡ some 201
      → (req : CreateAccountRequest) × (balance : D.Decimal) × (decode_json_body J J.decode_account
            body
          ≡ ok req)
        × (parse_money D req.initial_balance ≡ ok balance)
        × ShowsBalance req.account_id
            (value balance)
            again
            (get_account B (format_int req.account_id) again (create_account B J body out w).1).0
  create_account-get_account J body fits out again fresh fresh_again w told =
      elim (create_account_opens X law (committed w) out fresh J body w refl) [
        | inl (req, balance, a, decoded, fine, parsed, _, _, _, (_, now), _) ↦ (
          req,
          balance,
          decoded,
          parsed,
          get_printed req.account_id (value balance) _ again fresh_again _ (fits req decoded)
              ((validate_create_account_iff D req).0 fine).0
              (update_self req.account_id (value balance) (committed w).balances) now,
        )
        | inr ((status, other, low), _) ↦
            absurd (omega (arith, some-injective _ _ (sym told ∙ other)))
      ]
