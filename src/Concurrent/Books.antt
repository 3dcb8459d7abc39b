-- ===== src/Concurrent/Books.antt =====
-- Interleaved sessions against the books and against the schema.
use internal_transfers_syste.Base.{ℕ, ◌≢◌, List, [], ◌∷◌}
use internal_transfers_syste.Models.{DecimalLib, Exact}
use internal_transfers_syste.Interfaces.Ledger.{Entry, Ledger}
use internal_transfers_syste.Interfaces.Ledger.Audit.{Audited, Audited-refl, Audited-trans}
use internal_transfers_syste.Interfaces.Contract.{entry_of}
use internal_transfers_syste.Service.Transfer.Books.{Moved-Audited}
use internal_transfers_syste.Service.Session.{Order}
use internal_transfers_syste.Concurrent.{System, Reach, Loses}
use internal_transfers_syste.Concurrent.History.{History, Serial, untouched, one_more}
use internal_transfers_syste.Concurrent.Serial.{Serializes, Reach-Serializes, moved_apart}

module _ {D : DecimalLib} (X : Exact D) where
  -- The records of the history, as the ledger has them.
  abbrev pub receipts : History D → List (Entry X.Quantity)
  receipts [] = []
  receipts ((i, t) ∷ h) = entry_of X t ∷ receipts h

module _ {D : DecimalLib} (X : Exact D) (order : ℕ → Order D) (L : Ledger X.Quantity) where
  open X use {Quantity, value, origin, lt}

  -- A serial history of sessions of which each that has answered with a record has it there once.
  abbrev pub Booked : (ℕ → Type 0) → System X → Type 0
  Booked Lost s = (z : Serializes X order L Lost s) × Audited X L (receipts X z.history) s.db.ledger

  module _ (apart : (i : ℕ) → (order i).source_id ≢ (order i).dest_id) where
    pub Serial-Audited :
        {h : History D} {M : Ledger Quantity} → Serial X order L h M → Audited X L (receipts X h) M
    Serial-Audited untouched = Audited-refl X L
    Serial-Audited (one_more i {t} before (moved, from, to, _)) =
        Audited-trans X (Serial-Audited before)
          (Moved-Audited X moved (moved_apart X order L apart i t from to))

    -- If every session is for two different accounts, then at every point of every interleaving the
    -- committed ledger has, on top of its old records, exactly those of the transfers that committed, one
    -- for each session that answered with a record and none for one that has not yet tried to commit or
    -- that answered with an error, unless its own answer from the commit was lost; and every account of
    -- the start has what it had, with what these records say that it received and without what they say
    -- that it paid.
    pub Reach-Booked : {s : System X} (r : Reach X order L s) → Booked (λ j. Loses X order j r) s
    Reach-Booked r = let z = Reach-Serializes X order L apart r in (z, Serial-Audited z.serial)
