-- ===== src/Concurrent/Release.antt =====
-- The rows that sessions hold, and the deferred rollback of `executeTransfer`.
use internal_transfers_syste.Base.{ℕ, ◌≡◌, subst, ◌≢◌, some}
use internal_transfers_syste.Base.Int.{ℤ}
use internal_transfers_syste.Base.Action.{Result}
use internal_transfers_syste.Models.{Error, DecimalLib, Exact, Transaction}
use internal_transfers_syste.Interfaces.Ledger.{Ledger}
use internal_transfers_syste.Service.Session.{Order, returned}
use internal_transfers_syste.Concurrent.{System, Step, session, Reach, here, then_step}
use internal_transfers_syste.Concurrent.Family.{update_at_all}
use internal_transfers_syste.Concurrent.Waiting.{MayHold, Move-owner, Move-MayHold}

module _ {D : DecimalLib} (X : Exact D) (order : ℕ → Order D) where
  -- The holder of each row may hold it.
  abbrev pub AllMayHold : System X → Type 0
  AllMayHold s = (k : ℕ) (x : ℤ) → s.db.owner x ≡ some k → MayHold (order k) (s.pc k) x

  Step-AllMayHold : {s t : System X} → Step X order s t → AllMayHold s → AllMayHold t
  Step-AllMayHold {s} (session i {p} {db'} m) may =
      update_at_all (λ k q. (x : ℤ) → db'.owner x ≡ some k → MayHold (order k) q x) i p s.pc
        (λ x h. Move-MayHold X order i x m (may i x) h)
        (λ k ne x h. may k x (Move-owner X order i x k m ne h))

  pub Reach-AllMayHold : (L : Ledger X.Quantity) {s : System X} → Reach X order L s → AllMayHold s
  Reach-AllMayHold L here = λ k x h. cc
  Reach-AllMayHold L (then_step before next) = Step-AllMayHold next (Reach-AllMayHold L before)

  -- At every point of every interleaving, whether its calls have failed or not, a session that has
  -- returned has no row locked.
  pub returned_releases :
      (L : Ledger X.Quantity) {s : System X}
      → Reach X order L s
      → (k : ℕ) (r : Result Error (Transaction D)) → s.pc k ≡ returned r
      → (x : ℤ) → s.db.owner x ≢ some k
  returned_releases L r k ended done x held =
      subst (λ p. MayHold (order k) p x) done (Reach-AllMayHold L r k x held)
