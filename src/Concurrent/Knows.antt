-- ===== src/Concurrent/Knows.antt =====
-- What a session knows of the database at each point, and that no other session's move can change it.
use internal_transfers_syste.Base.{ℕ, ◌≡◌, ◌∙◌, some, false}
use internal_transfers_syste.Base.Int.{ℤ}
use internal_transfers_syste.Models.{DecimalLib, Exact, Account, Transaction}
use internal_transfers_syste.Interfaces.Ledger.{Ledger, set_balance, add_entry}
use internal_transfers_syste.Interfaces.Contract.{entry_of}
use internal_transfers_syste.Service.Session.{
  Order, beginning, locking_first, locking_second, debiting, crediting, recording, committing,
  rolling_back, returned, first_id,
}
use internal_transfers_syste.Concurrent.{SessionPc, Database}

module _ {D : DecimalLib} (X : Exact D) where
  open X use {Quantity, value}

  module _ (o : Order D) (i : ℕ) where
    -- Both rows are locked, and `s` and `d` are what the ledger has of them; the source holds the amount.
    pub record Holds (db : Database X) (s d : Account D) : Type 0 where
      pub is_source : s.account_id ≡ o.source_id
      pub is_dest : d.account_id ≡ o.dest_id
      pub owns_source : db.owner o.source_id ≡ some i
      pub owns_dest : db.owner o.dest_id ≡ some i
      pub source_balance : db.ledger.balances o.source_id ≡ some (value s.balance)
      pub dest_balance : db.ledger.balances o.dest_id ≡ some (value d.balance)
      pub enough : D.less_than s.balance o.amount ≡ false

    -- The changes of the transaction, after each of its writes.
    abbrev pub debited : Account D → Ledger Quantity → Ledger Quantity
    debited s L = set_balance s.account_id (value (D.sub s.balance o.amount)) L

    abbrev pub credited : Account D → Account D → Ledger Quantity → Ledger Quantity
    credited s d L = set_balance d.account_id (value (D.add d.balance o.amount)) (debited s L)

    abbrev pub recorded : Transaction D → Account D → Account D → Ledger Quantity → Ledger Quantity
    recorded t s d L = add_entry (entry_of X t) (credited s d L)

    abbrev pub Knows : SessionPc X → Database X → Type 0
    Knows beginning db = Unit
    Knows (locking_first _) db = db.changes i ≡ (λ L. L)
    Knows (locking_second _ a) db =
        (db.changes i ≡ (λ L. L))
        × (a.account_id ≡ first_id o)
        × (db.owner (first_id o) ≡ some i)
        × (db.ledger.balances (first_id o) ≡ some (value a.balance))
    Knows (debiting _ s d) db = Holds db s d × (db.changes i ≡ (λ L. L))
    Knows (crediting _ d) db = (s : Account D) × Holds db s d × (db.changes i ≡ debited s)
    Knows (recording _) db =
        (s : Account D) × (d : Account D) × Holds db s d × (db.changes i ≡ credited s d)
    Knows (committing _ t) db =
        (s : Account D) × (d : Account D) × Holds db s d
        × (db.changes i ≡ recorded t s d)
        × (t.source_account_id ≡ o.source_id)
        × (t.destination_account_id ≡ o.dest_id)
        × (t.amount ≡ o.amount)
    Knows (rolling_back _ _) db = Unit
    Knows (returned _) db = Unit

    -- What the move of another session leaves to this one.
    pub record Frame (db db' : Database X) : Type 0 where
      pub own : (x : ℤ) → db.owner x ≡ some i → db'.owner x ≡ some i
      pub same : (x : ℤ) → db.owner x ≡ some i → db'.ledger.balances x ≡ db.ledger.balances x
      pub kept : db'.changes i ≡ db.changes i

    pub Holds-kept :
        {db db' : Database X} {s d : Account D}
        → ((x : ℤ) → db.owner x ≡ some i → db'.owner x ≡ some i)
        → ((x : ℤ) → db.owner x ≡ some i → db'.ledger.balances x ≡ db.ledger.balances x)
        → Holds db s d
        → Holds db' s d
    Holds-kept own same h = record {
      is_source = h.is_source;
      is_dest = h.is_dest;
      owns_source = own _ h.owns_source;
      owns_dest = own _ h.owns_dest;
      source_balance = same _ h.owns_source ∙ h.source_balance;
      dest_balance = same _ h.owns_dest ∙ h.dest_balance;
      enough = h.enough;
    }

    module _ {db db' : Database X} (f : Frame db db') where
      open f use {own, same, kept}

      pub Knows-Frame : (p : SessionPc X) → Knows p db → Knows p db'
      Knows-Frame beginning h = tt
      Knows-Frame (locking_first _) h = kept ∙ h
      Knows-Frame (locking_second _ a) (clean, is_first, owns, has) =
          (kept ∙ clean, is_first, own _ owns, same _ owns ∙ has)
      Knows-Frame (debiting _ s d) (holds, clean) = (Holds-kept own same holds, kept ∙ clean)
      Knows-Frame (crediting _ d) (s, holds, now) = (s, Holds-kept own same holds, kept ∙ now)
      Knows-Frame (recording _) (s, d, holds, now) = (s, d, Holds-kept own same holds, kept ∙ now)
      Knows-Frame (committing _ t) (s, d, holds, now, from, to, all) =
          (s, d, Holds-kept own same holds, kept ∙ now, from, to, all)
      Knows-Frame (rolling_back _ _) h = tt
      Knows-Frame (returned _) h = tt
