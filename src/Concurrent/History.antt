-- ===== src/Concurrent/History.antt =====
-- What sessions of `executeTransfer` are to do to the ledger, however they are interleaved: the transfers
-- of the history, one after the other, each whole and none twice.
use internal_transfers_syste.Base.{ℕ, ◌≡◌, sym, ◌≢◌, ◌⊎◌, inl, inr, List, [], ◌∷◌}
use internal_transfers_syste.Base.Action.{Result, ok, err}
use internal_transfers_syste.Models.{Error, DecimalLib, Exact, Transaction}
use internal_transfers_syste.Interfaces.Ledger.{Ledger}
use internal_transfers_syste.Service.Transfer.Spec.{Done}
use internal_transfers_syste.Service.Session.{Order, Pc, rolling_back, returned}

-- The sessions that committed, with their records, the last one first.
abbrev pub History : DecimalLib → Type 0
History D = List (ℕ × Transaction D)

-- What a session has answered, or is about to.
pub data Fate (D : DecimalLib) : Type 0 where
  undecided : Fate D
  failed : Fate D
  succeeded : Transaction D → Fate D

module _ {D : DecimalLib} where
  abbrev pub fate_of : Result Error (Transaction D) → Fate D
  fate_of (ok t) = succeeded t
  fate_of (err e) = failed

  abbrev pub fate : Pc D (Unit {0}) → Fate D
  fate (rolling_back _ r) = fate_of r
  fate (returned r) = fate_of r
  fate _ = undecided

  abbrev pub Occurs : ℕ → Transaction D → History D → Type 0
  Occurs j t [] = ⊥
  Occurs j t ((i, u) ∷ h) = ((j ≡ i) × (t ≡ u)) ⊎ Occurs j t h

  -- No session commits twice.
  abbrev pub Once : History D → Type 0
  Once [] = Unit
  Once ((i, t) ∷ h) = ((u : Transaction D) → ¬ (Occurs i u h)) × Once h

  abbrev pub Absent : ℕ → History D → Type 0
  Absent j h = (t : Transaction D) → ¬ (Occurs j t h)

  -- A session that answers with a record has committed it, and one without an answer has committed
  -- nothing, nor has one that answers with an error, unless its own answer from the commit was `Lost`.
  abbrev pub Settled : Type 0 → ℕ → History D → Fate D → Type 0
  Settled Lost j h undecided = Absent j h
  Settled Lost j h failed = Lost ⊎ Absent j h
  Settled Lost j h (succeeded t) = Occurs j t h

  pub Settled-weaken :
      {A B : Type 0}
      → (A → B)
      → (j : ℕ) (h : History D) (f : Fate D) → Settled A j h f
      → Settled B j h f
  Settled-weaken w j h undecided s = s
  Settled-weaken w j h failed (inl lost) = inl (w lost)
  Settled-weaken w j h failed (inr s) = inr s
  Settled-weaken w j h (succeeded t) s = s

  Absent-other :
      (i j : ℕ) (t : Transaction D) (h : History D) → i ≢ j → Absent j h → Absent j ((i, t) ∷ h)
  Absent-other i j t h ne s = λ u. elim [ inl (e, _) ↦ absurd (ne (sym e)) | inr m ↦ s u m ]

  pub Settled-other :
      (Lost : Type 0) (i j : ℕ) (t : Transaction D) (h : History D)
      → i ≢ j
      → (f : Fate D) → Settled Lost j h f
      → Settled Lost j ((i, t) ∷ h) f
  Settled-other Lost i j t h ne undecided s = Absent-other i j t h ne s
  Settled-other Lost i j t h ne failed (inl lost) = inl lost
  Settled-other Lost i j t h ne failed (inr s) = inr (Absent-other i j t h ne s)
  Settled-other Lost i j t h ne (succeeded u) s = inr s

module _ {D : DecimalLib} (X : Exact D) (order : ℕ → Order D) (L : Ledger X.Quantity) where
  -- The ledger `M` is `L` after the transfers of the history, which their sessions were asked for.
  pub data Serial : History D → Ledger X.Quantity → Type 0 where
    untouched : Serial [] L
    one_more :
        (i : ℕ) {t : Transaction D} {h : History D} {M N : Ledger X.Quantity}
        → Serial h M
        → Done X M (order i).source_id (order i).dest_id (order i).amount t N
        → Serial ((i, t) ∷ h) N
