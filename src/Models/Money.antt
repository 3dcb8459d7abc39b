-- ===== src/Models/Money.antt =====
-- internal/models/money.go. The type `decimal.Decimal` of shopspring/decimal is a parameter: its
-- operations that the program calls, and what its documentation says of them.
pub mod Laws
use text.Mathlib.Text.{◌==◌ as str_eq}
use internal_transfers_syste.Base.{String, ◌<>◌, ◌≡◌, Bool, true, false, not, if◌then◌else◌}
use internal_transfers_syste.Base.Action.{Result, ok, err}
use internal_transfers_syste.Models.Errors.{Error, plain, errorf}

pub record DecimalLib : Type 1 where
  pub Decimal : Type 0
  pub zero : Decimal
  pub new_from_string : String → Result Error Decimal
  pub to_string : Decimal → String
  pub add : Decimal → Decimal → Decimal
  pub sub : Decimal → Decimal → Decimal
  pub less_than : Decimal → Decimal → Bool
  pub less_than_or_equal : Decimal → Decimal → Bool

-- The arithmetic is exact: a decimal stands for a quantity, one quantity has many decimals (1.5,
-- 1.50), and the quantities are an ordered group.
pub record Exact (D : DecimalLib) : Type 1 where
  pub Quantity : Type 0
  pub value : D.Decimal → Quantity
  pub origin : Quantity
  pub plus : Quantity → Quantity → Quantity
  pub lt : Quantity → Quantity → Bool
  pub value-zero : value D.zero ≡ origin
  pub value-add : (a b : D.Decimal) → value (D.add a b) ≡ plus (value a) (value b)
  pub value-sub : (a b : D.Decimal) → plus (value (D.sub a b)) (value b) ≡ value a
  pub less_than-lt : (a b : D.Decimal) → D.less_than a b ≡ lt (value a) (value b)
  pub less_than_or_equal-lt :
      (a b : D.Decimal) → D.less_than_or_equal a b ≡ not (lt (value b) (value a))
  pub plus_comm : (p q : Quantity) → plus p q ≡ plus q p
  pub plus_assoc : (p q r : Quantity) → plus (plus p q) r ≡ plus p (plus q r)
  pub plus-origin : (p : Quantity) → plus p origin ≡ p
  pub plus_cancel : (p q r : Quantity) → plus p r ≡ plus q r → p ≡ q
  pub lt-plus : (p q r : Quantity) → lt (plus p r) (plus q r) ≡ lt p q
  pub lt_irrefl : (p : Quantity) → lt p p ≡ false
  pub lt_trans : (p q r : Quantity) → lt p q ≡ true → lt q r ≡ true → lt p r ≡ true

-- The verb `%q`, for a text with nothing to escape.
abbrev pub quoted : String → String
quoted s = "\"" <> (s <> "\"")

module _ (D : DecimalLib) where
  -- The check of the error of `decimal.NewFromString(s)`.
  abbrev pub wrap_parse : String → Result Error D.Decimal → Result Error D.Decimal
  wrap_parse s (ok d) = ok d
  wrap_parse s (err e) = err (errorf ("invalid decimal " <> (quoted s <> ": ")) e)

  -- `ParseMoney`
  unfoldable pub parse_money : String → Result Error D.Decimal
  parse_money s =
      if str_eq s "" then err (plain "empty amount string") else wrap_parse s (D.new_from_string s)

  -- `FormatMoney`
  unfoldable pub format_money : D.Decimal → String
  format_money d = D.to_string d
