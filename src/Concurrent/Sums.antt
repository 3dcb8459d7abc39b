-- ===== src/Concurrent/Sums.antt =====
-- Sums over sessions, whatever their order.
use internal_transfers_syste.Base.{
  ℕ, ◌≡◌, ◌≢◌, refl, sym, ◌∙◌, ap, ◌⊎◌, inl, inr, List, [], ◌∷◌, ◌==◌, subst, if◌then◌else◌,
  Bool-cases,
}
use internal_transfers_syste.Models.{DecimalLib, Exact}
use internal_transfers_syste.Interfaces.Ledger.Total.{plus_left_comm}
use internal_transfers_syste.Concurrent.Family.{eq_of_test, ne_of_test}

abbrev pub In : ℕ → List ℕ → Type 0
In x [] = ⊥
In x (j ∷ js) = (x ≡ j) ⊎ In x js

-- No session stands twice.
abbrev pub NoRepeat : List ℕ → Type 0
NoRepeat [] = Unit
NoRepeat (j ∷ js) = ¬ (In j js) × NoRepeat js

unfoldable without : ℕ → List ℕ → List ℕ
without x [] = []
without x (j ∷ js) = let rest = without x js in if x == j then rest else j ∷ rest

module _ (x : ℕ) where
  without_absent : (js : List ℕ) → ¬ (In x js) → without x js ≡ js
  unfolding without
  without_absent [] h = refl
  without_absent (j ∷ js) h = elim (Bool-cases (x == j)) [
    | inl same ↦ absurd (h (inl (sym (eq_of_test j x same))))
    | inr other ↦ rw other (ap (λ ks. j ∷ ks) (without_absent js (λ m. h (inr m))))
  ]

  In-without : (y : ℕ) (js : List ℕ) → In y (without x js) → In y js × (y ≢ x)
  unfolding without
  In-without y [] m = absurd m
  In-without y (j ∷ js) m = elim (Bool-cases (x == j)) [
    | inl same ↦ let (n, ne) = In-without y js (rw same at m) in (inr n, ne)
    | inr other ↦
        let place : (y ≡ j) ⊎ In y (without x js) = rw other at m in
        elim place [
          | inl e ↦ (inl e, λ f. ne_of_test j x other (sym e ∙ f))
          | inr n ↦ let (k, apart) = In-without y js n in (inr k, apart)
        ]
  ]

  without-In : (y : ℕ) (js : List ℕ) → In y js → y ≢ x → In y (without x js)
  unfolding without
  without-In y [] m ne = absurd m
  without-In y (j ∷ js) m ne = elim (Bool-cases (x == j)) [
    | inl same ↦
        rw same
          (elim m [ inl e ↦ absurd (ne (e ∙ eq_of_test j x same)) | inr n ↦ without-In y js n ne ])
    | inr other ↦ rw other (elim m [ inl e ↦ inl e | inr n ↦ inr (without-In y js n ne) ])
  ]

  without-NoRepeat : (js : List ℕ) → NoRepeat js → NoRepeat (without x js)
  unfolding without
  without-NoRepeat [] h = tt
  without-NoRepeat (j ∷ js) (fresh, h) = elim (Bool-cases (x == j)) [
    | inl same ↦ rw same (without-NoRepeat js h)
    | inr other ↦ rw other (λ m. fresh (In-without j js m).0, without-NoRepeat js h)
  ]

module _ {D : DecimalLib} (X : Exact D) (f : ℕ → X.Quantity) where
  open X use {Quantity, origin, plus}

  unfoldable pub sum_of : List ℕ → Quantity
  sum_of [] = origin
  sum_of (j ∷ js) = plus (f j) (sum_of js)

  sum_of-without :
      (x : ℕ) (js : List ℕ) → NoRepeat js → In x js → sum_of js ≡ plus (f x) (sum_of (without x js))
  unfolding sum_of without
  sum_of-without x [] h m = absurd m
  sum_of-without x (j ∷ js) (fresh, h) m = elim (Bool-cases (x == j)) [
    | inl same ↦
        let e : j ≡ x = eq_of_test j x same in
        let gone : without x js ≡ js =
          without_absent x js (λ n. fresh (subst (λ y. In y js) (sym e) n)) in
        rw same (ap (λ y. plus (f y) (sum_of js)) e ∙ ap (λ ks. plus (f x) (sum_of ks)) (sym gone))
    | inr other ↦ elim m [
      | inl e ↦ absurd (ne_of_test j x other (sym e))
      | inr n ↦
          rw other (ap (plus (f j)) (sum_of-without x js h n) ∙ plus_left_comm X (f j) (f x) _)
    ]
  ]

  -- Two lists without repetition and with the same sessions have the same sum.
  pub sum_of-same :
      (js ks : List ℕ)
      → NoRepeat js
      → NoRepeat ks
      → ((x : ℕ) → In x js → In x ks)
      → ((x : ℕ) → In x ks → In x js)
      → sum_of js ≡ sum_of ks
  unfolding sum_of
  sum_of-same [] [] hj hk to from = refl
  sum_of-same [] (k ∷ ks) hj hk to from = absurd (from k (inl refl))
  sum_of-same (j ∷ js) ks (fresh, hj) hk to from =
      ap (plus (f j)) (
        sum_of-same js (without j ks) hj (without-NoRepeat j ks hk)
          (λ x m. without-In j x ks (to x (inr m)) (λ e. fresh (subst (λ y. In y js) e m)))
          (λ x m. later x (In-without j x ks m)))
      ∙ sym (sum_of-without j ks hk (to j (inl refl)))
    where
      later : (x : ℕ) → In x ks × (x ≢ j) → In x js
      later x (m, ne) = elim (from x m) [ inl e ↦ absurd (ne e) | inr n ↦ n ]
