-- ===== src/Concurrent/Serial.antt =====
-- Interleaved sessions against serial executions of their transfers.
use internal_transfers_syste.Base.{
  ℕ, ◌≡◌, refl, sym, ap, ◌∙◌, List, subst, ◌≢◌, inl, inr, [], ◌∷◌, true,
}
use internal_transfers_syste.Base.Int.{ℤ}
use internal_transfers_syste.Models.{DecimalLib, Exact, Transaction}
use internal_transfers_syste.Interfaces.Ledger.{Ledger}
use internal_transfers_syste.Interfaces.Ledger.Total.{Has, Distinct, total}
use internal_transfers_syste.Service.Transfer.Spec.{IsSolvent}
use internal_transfers_syste.Service.Transfer.Conservation.{Moved-total, Moved-IsSolvent}
use internal_transfers_syste.Service.Session.{Order}
use internal_transfers_syste.Concurrent.{
  SessionPc, Database, Move, System, session, start, Reach, here, then_step, Loses,
}
use internal_transfers_syste.Concurrent.Family.{update_at, update_at_all}
use internal_transfers_syste.Concurrent.Knows.{Knows, Knows-Frame}
use internal_transfers_syste.Concurrent.Moves.{Move-Frame}
use internal_transfers_syste.Concurrent.Facts.{Move-Knows}
use internal_transfers_syste.Concurrent.History.{
  History, fate, Once, Settled, Settled-other, Settled-weaken, Serial, untouched, one_more,
}
use internal_transfers_syste.Concurrent.Effects.{Effect, Move-Effect}

module _ {D : DecimalLib} (X : Exact D) (order : ℕ → Order D) (L : Ledger X.Quantity) where
  open X use {Quantity, value, origin, lt}

  -- The ledger is that of a serial execution, in which no session stands twice, and every session that
  -- answers with a record stands with that record, and none that has not decided yet; nor does one that
  -- answers with an error, unless its answer from the commit was lost.
  pub record Serializes (Lost : ℕ → Type 0) (s : System X) : Type 0 where
    pub history : History D
    pub serial : Serial X order L history s.db.ledger
    pub once : Once history
    pub settled : (j : ℕ) → Settled (Lost j) j history (fate (s.pc j))

  abbrev pub AllKnow : System X → Type 0
  AllKnow s = (j : ℕ) → Knows X (order j) j (s.pc j) s.db

  start-Serializes : Serializes (λ j. ⊥) (start X L)
  start-Serializes = record { history = []; serial = untouched; once = tt; settled = λ j t m. m }

  module _ (s : System X) (i : ℕ) {p : SessionPc X} {db' : Database X}
      (m : Move X order i s.db (s.pc i) p db') where
    moved-AllKnow :
        (order i).source_id ≢ (order i).dest_id
        → AllKnow s
        → AllKnow (record { db = db'; pc = update_at i p s.pc })
    moved-AllKnow apart k =
        update_at_all (λ j q. Knows X (order j) j q db') i p s.pc
          (Move-Knows X order i apart m (k i))
          (λ j ne.
            Knows-Frame X (order j) j (Move-Frame X order i j (order j) ne m (k i)) (s.pc j) (k j))

    module _ {Before After : ℕ → Type 0} (weaken : (j : ℕ) → Before j → After j) where
      moved-Serializes :
          (z : Serializes Before s)
          → Effect X order i z.history (After i) s.db.ledger db'.ledger p
          → Serializes After (record { db = db'; pc = update_at i p s.pc })
      moved-Serializes z (inl (same, mine)) = record {
        history = z.history;
        serial = subst (Serial X order L z.history) (sym same) z.serial;
        once = z.once;
        settled =
            update_at_all (λ j q. Settled (After j) j z.history (fate q)) i p s.pc mine
              (λ j _. Settled-weaken (weaken j) j z.history (fate (s.pc j)) (z.settled j));
      }
      moved-Serializes z (inr (t, done, fresh, mine)) = record {
        history = (i, t) ∷ z.history;
        serial = one_more i z.serial done;
        once = (fresh, z.once);
        settled =
            update_at_all (λ j q. Settled (After j) j ((i, t) ∷ z.history) (fate q)) i p s.pc mine
              (λ j ne.
                Settled-other (After j) i j t z.history ne (fate (s.pc j))
                  (Settled-weaken (weaken j) j z.history (fate (s.pc j)) (z.settled j)));
      }

  module _ (apart : (i : ℕ) → (order i).source_id ≢ (order i).dest_id) where
    pub Reach-AllKnow :
        {s : System X} (r : Reach X order L s) → AllKnow s × Serializes (λ j. Loses X order j r) s
    Reach-AllKnow here = (λ j. tt, start-Serializes)
    Reach-AllKnow (then_step {s} before (session i m)) =
        let (k, z) = Reach-AllKnow before in
        (
          moved-AllKnow s i m (apart i) k,
          moved-Serializes s i m (λ j. inl) z
              (Move-Effect X order i z.history _ m (λ lossy. inr (refl, lossy)) (k i)
                (Settled-weaken inl i z.history (fate (s.pc i)) (z.settled i))),
        )

    -- If every session is for two different accounts, then whatever the sessions have done so far, in any
    -- interleaving and with any errors, the committed ledger is the one that a serial execution gives: the
    -- transfers of some of the sessions, each whole and none twice, one after the other. Every session
    -- that answers with a record is among them with that record, and no session that has not yet tried
    -- to commit is, nor one that answers with an error, unless its commit took effect and the answer to
    -- it was lost.
    pub Reach-Serializes :
        {s : System X} (r : Reach X order L s) → Serializes (λ j. Loses X order j r) s
    Reach-Serializes r = (Reach-AllKnow r).1

    pub moved_apart :
        (i : ℕ) (t : Transaction D)
        → t.source_account_id ≡ (order i).source_id
        → t.destination_account_id ≡ (order i).dest_id
        → t.source_account_id ≢ t.destination_account_id
    moved_apart i t from to e = apart i (sym from ∙ e ∙ to)

    module _ (positive : (i : ℕ) → lt origin (value (order i).amount) ≡ true)
        (solvent : IsSolvent X L) where
      Serial-IsSolvent :
          {h : History D} {M : Ledger Quantity} → Serial X order L h M → IsSolvent X M
      Serial-IsSolvent untouched = solvent
      Serial-IsSolvent (one_more i {t} before (moved, from, to, all)) =
          Moved-IsSolvent X moved (moved_apart i t from to)
            (ap (λ b. lt origin (value b)) all ∙ positive i) (Serial-IsSolvent before)

      -- No account is ever below zero, if none is at the start and every amount is above zero.
      pub Reach-IsSolvent : {s : System X} → Reach X order L s → IsSolvent X s.db.ledger
      Reach-IsSolvent r = Serial-IsSolvent ((Reach-Serializes r).serial)

      module _ (ids : List ℤ) (distinct : Distinct ids)
          (all_sources : (i : ℕ) → Has (order i).source_id ids)
          (all_dests : (i : ℕ) → Has (order i).dest_id ids) where
        Serial-total :
            {h : History D} {M : Ledger Quantity}
            → Serial X order L h M
            → total X ids M.balances ≡ total X ids L.balances
        Serial-total untouched = refl
        Serial-total (one_more i {t} before (moved, from, to, all)) =
            Moved-total X moved (moved_apart i t from to) ids distinct
              (subst (λ k. Has k ids) (sym from) (all_sources i))
              (subst (λ k. Has k ids) (sym to) (all_dests i))
            ∙ Serial-total before

        -- If every session is for two different accounts and an amount above zero, and the ledger is solvent
        -- before, then at every point of every interleaving the committed balances of any distinct accounts
        -- that all parties are among add up to what they did, and no account is below zero.
        pub Reach-Conserves :
            {s : System X}
            → Reach X order L s
            → (total X ids s.db.ledger.balances ≡ total X ids L.balances) × IsSolvent X s.db.ledger
        Reach-Conserves r = (Serial-total ((Reach-Serializes r).serial), Reach-IsSolvent r)
