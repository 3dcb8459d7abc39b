-- ===== src/Interfaces/Ledger/Total.antt =====
-- The money on a set of accounts, and how writing one balance changes it.
use internal_transfers_syste.Base.{
  ◌≡◌, refl, sym, ◌∙◌, ap, subst, ◌≢◌, ◌⊎◌, inl, inr, Option, none, some, List, [], ◌∷◌,
}
use internal_transfers_syste.Base.Int.{ℤ}
use internal_transfers_syste.Models.{DecimalLib, Exact}
use internal_transfers_syste.Interfaces.Ledger.{update, update_self, update_ne}

abbrev pub Has : ℤ → List ℤ → Type 0
Has i [] = ⊥
Has i (j ∷ ids) = (i ≡ j) ⊎ Has i ids

-- No id stands twice.
abbrev pub Distinct : List ℤ → Type 0
Distinct [] = Unit
Distinct (j ∷ ids) = ¬ (Has j ids) × Distinct ids

module _ {D : DecimalLib} (X : Exact D) where
  open X use {Quantity, origin, plus, plus_comm, plus_assoc, plus_cancel}

  abbrev pub balance_or_origin : Option Quantity → Quantity
  balance_or_origin none = origin
  balance_or_origin (some q) = q

  -- The sum of the balances of the accounts `ids`; an account that is not there has nothing.
  unfoldable pub total : List ℤ → (ℤ → Option Quantity) → Quantity
  total [] f = origin
  total (i ∷ ids) f = plus (balance_or_origin (f i)) (total ids f)

  pub plus_left_comm : (p q r : Quantity) → plus p (plus q r) ≡ plus q (plus p r)
  plus_left_comm p q r =
      sym (plus_assoc p q r) ∙ ap (λ x. plus x r) (plus_comm p q) ∙ plus_assoc q p r

  pub plus_cancel_left : (p q r : Quantity) → plus r p ≡ plus r q → p ≡ q
  plus_cancel_left p q r h = plus_cancel p q r (plus_comm p r ∙ h ∙ plus_comm r q)

  total-update_absent :
      (ids : List ℤ) (i : ℤ) (q : Quantity) (f : ℤ → Option Quantity)
      → ¬ (Has i ids)
      → total ids (update i q f) ≡ total ids f
  unfolding total
  total-update_absent [] i q f h = refl
  total-update_absent (j ∷ ids) i q f h = λ k.
      plus (balance_or_origin (update_ne i j q f (λ e. h (inl (sym e))) k))
        (total-update_absent ids i q f (λ m. h (inr m)) k)

  -- Writing `q` for `p` changes the sum by as much.
  pub total-update :
      (ids : List ℤ) (i : ℤ) (p q : Quantity) (f : ℤ → Option Quantity)
      → Distinct ids
      → Has i ids
      → f i ≡ some p
      → plus p (total ids (update i q f)) ≡ plus q (total ids f)
  unfolding total
  total-update [] i p q f h m e = absurd m
  total-update (j ∷ ids) i p q f h (inl same) e =
      let now : update i q f j ≡ some q = ap (update i q f) (sym same) ∙ update_self i q f in
      let was : f j ≡ some p = ap f (sym same) ∙ e in
      let rest : total ids (update i q f) ≡ total ids f =
        total-update_absent ids i q f (λ m. h.0 (subst (λ k. Has k ids) same m)) in
      (λ k. plus p (plus (balance_or_origin (now k)) (rest k)))
      ∙ plus_left_comm p q (total ids f)
      ∙ (λ k. plus q (plus (balance_or_origin (sym was k)) (total ids f)))
  total-update (j ∷ ids) i p q f h (inr m) e =
      let other : j ≢ i = λ s. h.0 (subst (λ k. Has k ids) (sym s) m) in
      let b : Quantity = balance_or_origin (f j) in
      (λ k.
        plus p (plus (balance_or_origin (update_ne i j q f other k)) (total ids (update i q f))))
      ∙ plus_left_comm p b (total ids (update i q f))
      ∙ ap (plus b) (total-update ids i p q f h.1 m e)
      ∙ plus_left_comm b q (total ids f)
