-- ===== src/Handler/Request.antt =====
-- What the handlers read of a request: the path value `id`, and the body through `decodeJSONBody`.
pub mod Numbers
use internal_transfers_syste.Base.{
  ℕ, zero, suc, ◌+◌, ◌*◌, ◌-◌, ◌^◌, String, Bool, true, false, Option, none, some, List, [], ◌∷◌,
  ltb, leb, ◌==◌, if◌then◌else◌,
}
use internal_transfers_syste.Base.Int.{ℤ, pos, negsuc}
use internal_transfers_syste.Base.Text.{codes}
use internal_transfers_syste.Base.Action.{Result, ok, err}
use internal_transfers_syste.Models.{Error, plain, CreateAccountRequest, CreateTransactionRequest}

-- The digits of `strconv.ParseUint`, without a bound.
unfoldable pub parse_digits : List ℕ → ℕ → Option ℕ
parse_digits [] n = some n
parse_digits (c ∷ s) n =
    let rest = parse_digits s (n * 10 + (c - b'0')) in
    if leb b'0' c then if leb c b'9' then rest else none else none

-- At least one digit.
unfoldable pub parse_magnitude : List ℕ → Option ℕ
parse_magnitude [] = none
parse_magnitude (c ∷ s) = parse_digits (c ∷ s) 0

abbrev pub in_range : Bool → Option ℕ → Option ℤ
in_range negative none = none
in_range false (some n) = if ltb n (2 ^ 63) then some (pos n) else none
in_range true (some zero) = some (pos 0)
in_range true (some (suc n)) = if ltb n (2 ^ 63) then some (negsuc n) else none

-- `strconv.ParseInt(s, 10, 64)`, `none` for an error.
unfoldable pub parse_codes : List ℕ → Option ℤ
parse_codes [] = none
parse_codes (c ∷ s) =
    if c == b'-'
    then in_range true (parse_magnitude s)
    else if c == b'+'
    then in_range false (parse_magnitude s)
    else in_range false (parse_magnitude (c ∷ s))

unfoldable pub parse_int : String → Option ℤ
parse_int s = parse_codes (codes s)

-- The JSON decoder of the standard library, over bodies of an unknown kind: the reader that
-- `http.MaxBytesReader` limits, `Decode` with unknown fields disallowed, and `More`.
pub record JsonLib : Type 1 where
  pub Body : Type 0
  pub limit : ℕ → Body → Body
  pub decode_account : Body → Result Error CreateAccountRequest × Body
  pub decode_transaction : Body → Result Error CreateTransactionRequest × Body
  pub more : Body → Bool

module _ (J : JsonLib) where
  -- What follows `decoder.Decode`.
  abbrev pub single : {T : Type 0} → Result Error T × J.Body → Result Error T
  single (err e, rest) = err e
  single (ok target, rest) =
      if J.more rest then err (plain "body must only contain a single JSON object") else ok target

  unfoldable pub decode_json_body :
      {T : Type 0} → (J.Body → Result Error T × J.Body) → J.Body → Result Error T
  decode_json_body decode body = single (decode (J.limit (2 ^ 20) body))
