-- ===== src/Validator/Accepts.antt =====
-- What the two validators accept, and that the services have nothing to object to it.
use text.Mathlib.Text.{◌==◌ as str_eq}
use mathlib.Core.Bool.{◌&&◌}
use internal_transfers_syste.Base.{
  ◌≡◌, refl, ◌∙◌, ap, ◌≢◌, ◌↔◌, inl, inr, Bool, true, false, String, [], ◌∷◌, ◌++◌, arith,
  Bool-cases,
}
use internal_transfers_syste.Base.Int.{ℤ, pos, ◌≤ℤ◌, leb_ℤ, ltb_ℤ, ◌==ℤ◌, ==ℤ_iff}
use internal_transfers_syste.Base.Action.{Result, ok, err}
use internal_transfers_syste.Models.{
  Error, DecimalLib, parse_money, wrap_parse, CreateAccountRequest, CreateTransactionRequest,
}
use internal_transfers_syste.Validator.{
  ValidationErrors, complaint, check_number, check_decimal, validate_create_account,
  validate_create_transaction,
}

append-eq-nil : (xs ys : ValidationErrors) → (xs ++ ys ≡ []) ↔ ((xs ≡ []) × (ys ≡ []))
append-eq-nil [] ys = (λ h. (refl, h), λ h. h.1)
append-eq-nil (x ∷ xs) ys = (λ h. absurd (cc), λ h. absurd (cc))

complaint-eq-nil :
    (wrong : Bool) (name message : String) → (complaint wrong name message ≡ []) ↔ (wrong ≡ false)
complaint-eq-nil true name message = (λ h. absurd (cc), λ h. absurd (cc))
complaint-eq-nil false name message = (λ h. refl, λ h. refl)

ok-injective : {A : Type 0} {a b : A} → ◌≡◌ {A = Result Error A} (ok a) (ok b) → a ≡ b
ok-injective h = cc

positive : (i : ℤ) → leb_ℤ i (pos 0) ≡ false → pos 1 ≤ℤ i
positive i h = ground arith

not_low : (i : ℤ) → pos 1 ≤ℤ i → leb_ℤ i (pos 0) ≡ false
not_low i h = ground arith

abbrev both_same : ℤ → ℤ → Bool
both_same i j = ltb_ℤ (pos 0) i && ltb_ℤ (pos 0) j && i ==ℤ j

apart : (i j : ℤ) → pos 1 ≤ℤ i → pos 1 ≤ℤ j → both_same i j ≡ false → i ≢ j
apart i j hi hj h = ground (arith, ==ℤ_iff i j)

not_same : (i j : ℤ) → i ≢ j → both_same i j ≡ false
not_same i j ne = ground (arith, ==ℤ_iff i j)

module _ (D : DecimalLib) where
  -- The text is that of a decimal which the test does not object to.
  abbrev pub Holds : (D.Decimal → Bool) → String → Type 0
  Holds wrong text = (d : D.Decimal) × (parse_money D text ≡ ok d) × (wrong d ≡ false)

  number_iff :
      (name text : String) (wrong : D.Decimal → Bool) (message : String)
      (r : Result Error D.Decimal)
      → (check_number D name wrong message r ≡ [])
        ↔ ((d : D.Decimal) × (wrap_parse D text r ≡ ok d) × (wrong d ≡ false))
  number_iff name text wrong message (err e) = (λ h. absurd (cc), λ (d, h, w). absurd (cc))
  number_iff name text wrong message (ok d) = (
    λ h. (d, refl, (complaint-eq-nil (wrong d) name message).0 h),
    λ (c, h, w). (complaint-eq-nil (wrong d) name message).1 (ap wrong (ok-injective h) ∙ w),
  )

  check_decimal_iff :
      (name text : String) (wrong : D.Decimal → Bool) (message : String)
      → (check_decimal D name text wrong message ≡ []) ↔ Holds wrong text
  unfolding parse_money
  check_decimal_iff name text wrong message = elim (Bool-cases (str_eq text "")) [
    | inl empty ↦ rw empty (λ h. absurd (cc), λ (d, h, w). absurd (cc))
    | inr full ↦ rw full (number_iff name text wrong message (D.new_from_string text))
  ]

  -- Nothing is said of a request to create an account exactly if its id is positive and its balance
  -- is a decimal that is not negative.
  pub validate_create_account_iff :
      (req : CreateAccountRequest)
      → (validate_create_account D req ≡ [])
        ↔ ((pos 1 ≤ℤ req.account_id) × Holds (λ b. D.less_than b D.zero) req.initial_balance)
  unfolding validate_create_account
  validate_create_account_iff req = (
    λ h.
        let (id, balance) = (append-eq-nil _ _).0 h in
        (
          positive req.account_id ((complaint-eq-nil _ _ _).0 id),
          (check_decimal_iff _ _ _ _).0 balance,
        ),
    λ h. (append-eq-nil _ _).1 (
      (complaint-eq-nil _ _ _).1 (not_low req.account_id h.0),
      (check_decimal_iff _ _ _ _).1 h.1,
    ),
  )

  -- Nothing is said of a request for a transfer exactly if both ids are positive and differ, and the
  -- amount is a decimal above zero.
  pub validate_create_transaction_iff :
      (req : CreateTransactionRequest)
      → (validate_create_transaction D req ≡ []) ↔ (
          (pos 1 ≤ℤ req.source_account_id)
          × (pos 1 ≤ℤ req.destination_account_id)
          × (req.source_account_id ≢ req.destination_account_id)
          × Holds (λ a. D.less_than_or_equal a D.zero) req.amount)
  unfolding validate_create_transaction
  validate_create_transaction_iff req = (
    λ h.
        let (source, h₁) = (append-eq-nil _ _).0 h in
        let (dest, h₂) = (append-eq-nil _ _).0 h₁ in
        let (same, amount) = (append-eq-nil _ _).0 h₂ in
        let s : pos 1 ≤ℤ req.source_account_id = positive _ ((complaint-eq-nil _ _ _).0 source) in
        let d : pos 1 ≤ℤ req.destination_account_id =
          positive _ ((complaint-eq-nil _ _ _).0 dest) in
        (
          s,
          d,
          apart _ _ s d ((complaint-eq-nil _ _ _).0 same),
          (check_decimal_iff _ _ _ _).0 amount,
        ),
    λ (s, d, ne, amount). (append-eq-nil _ _).1 (
      (complaint-eq-nil _ _ _).1 (not_low _ s),
      (append-eq-nil _ _).1 (
        (complaint-eq-nil _ _ _).1 (not_low _ d),
        (append-eq-nil _ _).1
            ((complaint-eq-nil _ _ _).1 (not_same _ _ ne), (check_decimal_iff _ _ _ _).1 amount),
      ),
    ),
  )
