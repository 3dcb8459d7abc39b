-- ===== src/Concurrent/Family.antt =====
-- A value for each session.
use internal_transfers_syste.Base.{
  ℕ, ◌≡◌, ◌≢◌, ◌==◌, arith, subst, inl, inr, true, false, Bool-cases, if◌then◌else◌,
}

pub eq_of_test : (i j : ℕ) → (j == i) ≡ true → i ≡ j
eq_of_test i j h = ground arith

pub ne_of_test : (i j : ℕ) → (j == i) ≡ false → i ≢ j
ne_of_test i j h = ground arith

module _ {ℓ} {A : Type ℓ} where
  abbrev pub update_at : ℕ → A → (ℕ → A) → ℕ → A
  update_at i a f j = if j == i then a else f j

  pub update_at_self : (i : ℕ) (a : A) (f : ℕ → A) → update_at i a f i ≡ a
  update_at_self i a f = ground arith

  pub update_at_ne : (i j : ℕ) (a : A) (f : ℕ → A) → j ≢ i → update_at i a f j ≡ f j
  update_at_ne i j a f h = ground arith

  -- What holds of the new value and of the others holds of all.
  pub update_at_all {κ} :
      (P : ℕ → A → Type κ) (i : ℕ) (a : A) (f : ℕ → A)
      → P i a
      → ((j : ℕ) → i ≢ j → P j (f j))
      → (j : ℕ) → P j (update_at i a f j)
  update_at_all P i a f now others j = elim (Bool-cases (j == i)) [
    | inl same ↦ rw same (subst (λ k. P k a) (eq_of_test i j same) now)
    | inr other ↦ rw other (others j (ne_of_test i j other))
  ]
