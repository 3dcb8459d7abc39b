-- ===== src/Interfaces/Ledger.antt =====
-- What the database holds, seen as quantities: the balance of each account and the record of
-- completed transfers, newest first. This is the state of the specification.
pub mod Total
pub mod Audit
use mathlib.Core.Path.{fun_ext}
use internal_transfers_syste.Base.{◌≡◌, ◌≢◌, Option, some, List, ◌∷◌, arith, if◌then◌else◌}
use internal_transfers_syste.Base.Int.{ℤ, ◌==ℤ◌, ==ℤ_iff}

module _ (Q : Type 0) where
  pub record Entry : Type 0 where
    pub id : ℤ
    pub source : ℤ
    pub destination : ℤ
    pub amount : Q

  pub record Ledger : Type 0 where
    pub balances : ℤ → Option Q
    pub entries : List Entry

module _ {Q : Type 0} where
  abbrev pub update : ℤ → Q → (ℤ → Option Q) → ℤ → Option Q
  update i q f j = if j ==ℤ i then some q else f j

  abbrev pub set_balance : ℤ → Q → Ledger Q → Ledger Q
  set_balance i q L = record L { balances = update i q L.balances }

  abbrev pub add_entry : Entry Q → Ledger Q → Ledger Q
  add_entry e L = record L { entries = e ∷ L.entries }

  pub update_self : (i : ℤ) (q : Q) (f : ℤ → Option Q) → update i q f i ≡ some q
  update_self i q f = ground arith

  pub update_ne : (i j : ℤ) (q : Q) (f : ℤ → Option Q) → j ≢ i → update i q f j ≡ f j
  update_ne i j q f h = ground (arith, ==ℤ_iff j i)

  -- Two accounts are written in either order.
  pub update_comm :
      (i j : ℤ) (p q : Q) (f : ℤ → Option Q)
      → i ≢ j
      → update i p (update j q f) ≡ update j q (update i p f)
  update_comm i j p q f h = fun_ext λ k. ground (arith, ==ℤ_iff k i, ==ℤ_iff k j)
