-- ===== src/Validator.antt =====
-- internal/validator/validator.go
pub mod Accepts
use text.Mathlib.Text.{◌==◌ as str_eq}
use mathlib.Core.Bool.{◌&&◌}
use internal_transfers_syste.Base.{
  ℕ, String, ◌<>◌, Bool, true, false, List, [], ◌∷◌, ◌++◌, ltb, length, if◌then◌else◌,
}
use internal_transfers_syste.Base.Int.{ℤ, pos, leb_ℤ, ltb_ℤ, ◌==ℤ◌}
use internal_transfers_syste.Base.Format.{format_int}
use internal_transfers_syste.Base.Action.{Result, ok, err}
use internal_transfers_syste.Models.{
  Error, DecimalLib, CreateAccountRequest, CreateTransactionRequest,
}

pub record ValidationError : Type 0 where
  pub field_name : String
  pub message : String

-- `ValidationError.Error()`
unfoldable pub validation_error_text : ValidationError → String
validation_error_text e = e.field_name <> (": " <> e.message)

-- `type ValidationErrors []ValidationError`
abbrev pub ValidationErrors : Type 0
ValidationErrors = List ValidationError

-- `ValidationErrors.Error()`
unfoldable pub validation_errors_text : ValidationErrors → String
validation_errors_text [] = ""
validation_errors_text (e ∷ es) =
    "validation failed: " <> (format_int (pos (length (e ∷ es))) <> " error(s)")

-- `ValidationErrors.HasErrors()`
unfoldable pub has_errors : ValidationErrors → Bool
has_errors es = ltb 0 (length es)

abbrev pub complaint : Bool → String → String → ValidationErrors
complaint wrong name message =
    if wrong then record { field_name = name; message = message } ∷ [] else []

module _ (D : DecimalLib) where
  -- What is said of the result of `decimal.NewFromString`, with the test that the decimal must fail.
  abbrev pub check_number :
      String → (D.Decimal → Bool) → String → Result Error D.Decimal → ValidationErrors
  check_number name wrong message (err _) =
      record { field_name = name; message = "must be a valid decimal number" } ∷ []
  check_number name wrong message (ok d) = complaint (wrong d) name message

  -- The checks of a text field that holds a decimal.
  abbrev pub check_decimal : String → String → (D.Decimal → Bool) → String → ValidationErrors
  check_decimal name text wrong message =
      if str_eq text ""
      then record { field_name = name; message = "is required" } ∷ []
      else check_number name wrong message (D.new_from_string text)

  unfoldable pub validate_create_account : CreateAccountRequest → ValidationErrors
  validate_create_account req =
      complaint (leb_ℤ req.account_id (pos 0)) "account_id" "must be a positive integer"
      ++ check_decimal "initial_balance" req.initial_balance (λ b. D.less_than b D.zero)
          "cannot be negative"

  unfoldable pub validate_create_transaction : CreateTransactionRequest → ValidationErrors
  validate_create_transaction req =
      complaint (leb_ℤ req.source_account_id (pos 0)) "source_account_id"
        "must be a positive integer"
      ++ (complaint (leb_ℤ req.destination_account_id (pos 0)) "destination_account_id"
            "must be a positive integer"
          ++ (complaint
                (ltb_ℤ (pos 0) req.source_account_id
                  && ltb_ℤ (pos 0) req.destination_account_id
                  && req.source_account_id ==ℤ req.destination_account_id)
                "destination_account_id" "cannot be the same as source_account_id"
              ++ check_decimal "amount" req.amount (λ a. D.less_than_or_equal a D.zero)
                  "must be greater than zero"))
