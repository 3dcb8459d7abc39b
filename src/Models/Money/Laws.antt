-- ===== src/Models/Money/Laws.antt =====
-- What exact arithmetic gives for the two new balances of a transfer.
use internal_transfers_syste.Base.{◌≡◌, sym, ◌∙◌, ap, inl, inr, true, false, not, Bool-cases}
use internal_transfers_syste.Models.Money.{DecimalLib, Exact}

module _ {D : DecimalLib} (X : Exact D) where
  open X use {Quantity, value, origin, plus, lt}

  pub origin-plus : (p : Quantity) → plus origin p ≡ p
  origin-plus p = X.plus_comm origin p ∙ X.plus-origin p

  -- A difference is below zero exactly if the first amount is less than the second.
  pub lt-sub-origin : (a b : D.Decimal) → lt (value (D.sub a b)) origin ≡ D.less_than a b
  lt-sub-origin a b =
      sym (X.lt-plus (value (D.sub a b)) origin (value b))
      ∙ (λ i. lt (X.value-sub a b i) (origin-plus (value b) i))
      ∙ sym (X.less_than-lt a b)

  -- More than zero added to a quantity makes it larger.
  pub lt-plus_right : (p q : Quantity) → lt origin q ≡ true → lt p (plus p q) ≡ true
  lt-plus_right p q h =
      (λ i. lt (sym (origin-plus p) i) (X.plus_comm p q i)) ∙ X.lt-plus origin q p ∙ h

  pub plus-nonneg :
      (p q : Quantity) → lt p origin ≡ false → lt origin q ≡ true → lt (plus p q) origin ≡ false
  plus-nonneg p q hp hq = elim (Bool-cases (lt (plus p q) origin)) [
    | inl below ↦ cc (X.lt_trans p (plus p q) origin (lt-plus_right p q hq) below)
    | inr fine ↦ fine
  ]

  zero_test : (a : D.Decimal) → D.less_than_or_equal a D.zero ≡ not (lt origin (value a))
  zero_test a = X.less_than_or_equal-lt a D.zero ∙ ap (λ z. not (lt z (value a))) X.value-zero

  -- An amount that passes the guard `amount <= 0` is above zero.
  pub lt-origin_of_pos :
      (a : D.Decimal) → D.less_than_or_equal a D.zero ≡ false → lt origin (value a) ≡ true
  lt-origin_of_pos a h = elim (Bool-cases (lt origin (value a))) [
    | inl above ↦ above
    | inr below ↦ cc (zero_test a, h, below)
  ]

  -- An amount that the guard `amount <= 0` stops is not above zero.
  pub not-lt-origin :
      (a : D.Decimal) → D.less_than_or_equal a D.zero ≡ true → lt origin (value a) ≡ false
  not-lt-origin a h = elim (Bool-cases (lt origin (value a))) [
    | inl above ↦ cc (zero_test a, h, above)
    | inr below ↦ below
  ]

  pub positive_passes :
      (a : D.Decimal) → lt origin (value a) ≡ true → D.less_than_or_equal a D.zero ≡ false
  positive_passes a h = zero_test a ∙ ap not h
