-- ===== src/Concurrent/Agreement.antt =====
-- Two interleavings in which the same sessions commit.
use internal_transfers_syste.Base.{
  ℕ, ◌≡◌, ◌≢◌, ◌↔◌, refl, sym, ◌∙◌, ap, inl, inr, some, List, [], ◌∷◌, if◌then◌else◌,
}
use internal_transfers_syste.Base.Int.{ℤ, ◌==ℤ◌}
use internal_transfers_syste.Models.{DecimalLib, Exact, Transaction}
use internal_transfers_syste.Interfaces.Ledger.{Ledger}
use internal_transfers_syste.Interfaces.Ledger.Audit.{paid_by, received_by}
use internal_transfers_syste.Service.Session.{Order}
use internal_transfers_syste.Concurrent.{System, Reach, Loses}
use internal_transfers_syste.Concurrent.History.{
  History, Fate, undecided, failed, succeeded, fate, Settled, Occurs, Once, Serial, untouched,
  one_more,
}
use internal_transfers_syste.Concurrent.Serial.{Reach-Serializes}
use internal_transfers_syste.Concurrent.Books.{receipts, Serial-Audited}
use internal_transfers_syste.Concurrent.Sums.{In, NoRepeat, sum_of, sum_of-same}

module _ {D : DecimalLib} where
  -- The sessions that have committed.
  abbrev pub sessions : History D → List ℕ
  sessions [] = []
  sessions ((j, t) ∷ h) = j ∷ sessions h

  In-sessions : (j : ℕ) (h : History D) → In j (sessions h) → (t : Transaction D) × Occurs j t h
  In-sessions j [] m = absurd m
  In-sessions j ((i, t) ∷ h) (inl e) = (t, inl (e, refl))
  In-sessions j ((i, t) ∷ h) (inr m) = let (u, n) = In-sessions j h m in (u, inr n)

  sessions-In : (j : ℕ) (t : Transaction D) (h : History D) → Occurs j t h → In j (sessions h)
  sessions-In j t [] m = absurd m
  sessions-In j t ((i, u) ∷ h) (inl (e, _)) = inl e
  sessions-In j t ((i, u) ∷ h) (inr m) = inr (sessions-In j t h m)

  -- The session has answered with a record, or is about to.
  abbrev pub HasRecord : Fate D → Type 0
  HasRecord (succeeded t) = Unit
  HasRecord _ = ⊥

  HasRecord-In :
      (Lost : Type 0) (j : ℕ) (h : History D) (f : Fate D)
      → ¬ Lost
      → Settled Lost j h f
      → HasRecord f ↔ In j (sessions h)
  HasRecord-In Lost j h undecided known s =
      (λ m. absurd m, λ m. let (u, n) = In-sessions j h m in s u n)
  HasRecord-In Lost j h failed known (inl lost) = absurd (known lost)
  HasRecord-In Lost j h failed known (inr s) =
      (λ m. absurd m, λ m. let (u, n) = In-sessions j h m in s u n)
  HasRecord-In Lost j h (succeeded t) known s = (λ _. sessions-In j t h s, λ _. tt)

  Once-NoRepeat : (h : History D) → Once h → NoRepeat (sessions h)
  Once-NoRepeat [] once = tt
  Once-NoRepeat ((i, t) ∷ h) (fresh, once) =
      (λ m. let (u, n) = In-sessions i h m in fresh u n, Once-NoRepeat h once)

module _ {D : DecimalLib} (X : Exact D) (order : ℕ → Order D) (L : Ledger X.Quantity) where
  open X use {Quantity, value, origin, plus}

  module _ (i : ℤ) where
    -- What session `j` is to take from account `i`, and to give to it.
    abbrev taken : ℕ → Quantity
    taken j = if i ==ℤ (order j).source_id then value (order j).amount else origin

    abbrev given : ℕ → Quantity
    given j = if i ==ℤ (order j).dest_id then value (order j).amount else origin

    Serial-taken :
        {h : History D} {M : Ledger Quantity}
        → Serial X order L h M
        → paid_by X i (receipts X h) ≡ sum_of X taken (sessions h)
    unfolding paid_by sum_of
    Serial-taken untouched = refl
    Serial-taken (one_more j before (_, from, to, all)) =
        λ k. plus (if i ==ℤ from k then value (all k) else origin) (Serial-taken before k)

    Serial-given :
        {h : History D} {M : Ledger Quantity}
        → Serial X order L h M
        → received_by X i (receipts X h) ≡ sum_of X given (sessions h)
    unfolding received_by sum_of
    Serial-given untouched = refl
    Serial-given (one_more j before (_, from, to, all)) =
        λ k. plus (if i ==ℤ to k then value (all k) else origin) (Serial-given before k)

  module _ (apart : (i : ℕ) → (order i).source_id ≢ (order i).dest_id) where
    Serial-agree :
        {h g : History D} {M N : Ledger Quantity}
        → Serial X order L h M
        → Serial X order L g N
        → Once h
        → Once g
        → ((j : ℕ) → In j (sessions h) ↔ In j (sessions g))
        → (i : ℤ) (p : Quantity) → L.balances i ≡ some p
        → M.balances i ≡ N.balances i
    Serial-agree {h} {g} a b once_h once_g same i p e =
        let (q, had, h_books) = (Serial-Audited X order L apart a).accounts i p e in
        let (r, has, g_books) = (Serial-Audited X order L apart b).accounts i p e in
        let equal : (f : ℕ → Quantity) → sum_of X f (sessions h) ≡ sum_of X f (sessions g) = λ f.
          sum_of-same X f (sessions h) (sessions g) (Once-NoRepeat h once_h)
            (Once-NoRepeat g once_g) (λ j. (same j).0) (λ j. (same j).1) in
        let paid : paid_by X i (receipts X h) ≡ paid_by X i (receipts X g) =
          Serial-taken i a ∙ equal (taken i) ∙ sym (Serial-taken i b) in
        let received : received_by X i (receipts X h) ≡ received_by X i (receipts X g) =
          Serial-given i a ∙ equal (given i) ∙ sym (Serial-given i b) in
        had
        ∙ ap some (
            X.plus_cancel q r (paid_by X i (receipts X h))
              (h_books ∙ ap (plus p) received ∙ sym g_books ∙ ap (plus r) (sym paid)))
        ∙ sym has

    -- If every session is for two different accounts, then two interleavings from one ledger, with any
    -- errors but no lost answer from a commit, in which the same sessions have got their record, leave
    -- every account of that ledger with the same balance, in whatever orders the sessions committed.
    pub Reach-agree :
        {s t : System X} (r : Reach X order L s) (r' : Reach X order L t)
        → ((j : ℕ) → ¬ (Loses X order j r))
        → ((j : ℕ) → ¬ (Loses X order j r'))
        → ((j : ℕ) → HasRecord (fate (s.pc j)) ↔ HasRecord (fate (t.pc j)))
        → (i : ℤ) (p : Quantity) → L.balances i ≡ some p
        → s.db.ledger.balances i ≡ t.db.ledger.balances i
    Reach-agree {s} {t} r r' known known' same =
        let z = Reach-Serializes X order L apart r in
        let y = Reach-Serializes X order L apart r' in
        Serial-agree z.serial y.serial z.once y.once (λ j.
          let left = HasRecord-In _ j z.history (fate (s.pc j)) (known j) (z.settled j) in
          let right = HasRecord-In _ j y.history (fate (t.pc j)) (known' j) (y.settled j) in
          (λ m. right.0 ((same j).0 (left.1 m)), λ m. left.0 ((same j).1 (right.1 m))))
