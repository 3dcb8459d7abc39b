-- ===== src/Interfaces/Ledger/Audit.antt =====
-- The books: the balances against the records of transfers. Each account's balance moves by what the
-- new records say that it received and paid.
use mathlib.Core.List.{append_assoc}
use internal_transfers_syste.Base.{
  ◌≡◌, ◌≢◌, refl, sym, ◌∙◌, ap, none, some, List, [], ◌∷◌, ◌++◌, if◌then◌else◌,
}
use internal_transfers_syste.Base.Int.{ℤ, ◌==ℤ◌, ==ℤ_iff, ==ℤ_ne}
use internal_transfers_syste.Models.{DecimalLib, Exact}
use internal_transfers_syste.Models.Money.Laws.{origin-plus}
use internal_transfers_syste.Interfaces.Ledger.{Entry, Ledger, update_ne, set_balance}
use internal_transfers_syste.Interfaces.Ledger.Total.{plus_left_comm}

module _ {D : DecimalLib} (X : Exact D) where
  open X use {Quantity, origin, plus, plus_comm, plus_assoc}

  -- What the entries say that the account `i` paid, and what it received.
  unfoldable pub paid_by : ℤ → List (Entry Quantity) → Quantity
  paid_by i [] = origin
  paid_by i (e ∷ entries) = plus (if i ==ℤ e.source then e.amount else origin) (paid_by i entries)

  unfoldable pub received_by : ℤ → List (Entry Quantity) → Quantity
  received_by i [] = origin
  received_by i (e ∷ entries) =
      plus (if i ==ℤ e.destination then e.amount else origin) (received_by i entries)

  module _ (i : ℤ) (e : Entry Quantity) where
    pub paid_by-source : i ≡ e.source → paid_by i (e ∷ []) ≡ e.amount
    unfolding paid_by
    paid_by-source h = rw (paid_by, (==ℤ_iff i e.source).1 h) (X.plus-origin e.amount)

    pub paid_by-other : i ≢ e.source → paid_by i (e ∷ []) ≡ origin
    unfolding paid_by
    paid_by-other h = rw (paid_by, ==ℤ_ne i e.source h) (X.plus-origin origin)

    pub received_by-destination : i ≡ e.destination → received_by i (e ∷ []) ≡ e.amount
    unfolding received_by
    received_by-destination h =
        rw (received_by, (==ℤ_iff i e.destination).1 h) (X.plus-origin e.amount)

    pub received_by-other : i ≢ e.destination → received_by i (e ∷ []) ≡ origin
    unfolding received_by
    received_by-other h = rw (received_by, ==ℤ_ne i e.destination h) (X.plus-origin origin)

  paid_by-append :
      (i : ℤ) (es fs : List (Entry Quantity))
      → paid_by i (es ++ fs) ≡ plus (paid_by i es) (paid_by i fs)
  unfolding paid_by
  paid_by-append i [] fs = sym (origin-plus X _)
  paid_by-append i (e ∷ es) fs = ap (plus _) (paid_by-append i es fs) ∙ sym (plus_assoc _ _ _)

  received_by-append :
      (i : ℤ) (es fs : List (Entry Quantity))
      → received_by i (es ++ fs) ≡ plus (received_by i es) (received_by i fs)
  unfolding received_by
  received_by-append i [] fs = sym (origin-plus X _)
  received_by-append i (e ∷ es) fs =
      ap (plus _) (received_by-append i es fs) ∙ sym (plus_assoc _ _ _)

  -- An account that had `p` and has `q` after the new entries `es`.
  abbrev pub Accounts : ℤ → List (Entry Quantity) → Quantity → Quantity → Type 0
  Accounts i es p q = plus q (paid_by i es) ≡ plus p (received_by i es)

  -- The ledger `M` has the entries `fresh` on top of those of `L`, and every account of `L`, its balance
  -- changed by what these entries say.
  pub record Audited (L : Ledger Quantity) (fresh : List (Entry Quantity)) (M : Ledger Quantity)
      : Type 0 where
    pub log : M.entries ≡ fresh ++ L.entries
    pub accounts :
        (i : ℤ) (p : Quantity)
        → L.balances i ≡ some p
        → (q : Quantity) × (M.balances i ≡ some q) × Accounts i fresh p q

  pub Audited-refl : (L : Ledger Quantity) → Audited L [] L
  unfolding paid_by received_by
  Audited-refl L = record { log = refl; accounts = λ i p e. (p, e, refl) }

  Accounts-append :
      (i : ℤ) (es fs : List (Entry Quantity)) (p q r : Quantity)
      → Accounts i es p q
      → Accounts i fs q r
      → Accounts i (fs ++ es) p r
  Accounts-append i es fs p q r h k =
      let pe : Quantity = paid_by i es in
      let pf : Quantity = paid_by i fs in
      let re : Quantity = received_by i es in
      let rf : Quantity = received_by i fs in
      ap (plus r) (paid_by-append i fs es)
      ∙ sym (plus_assoc r pf pe)
      ∙ ap (λ x. plus x pe) k
      ∙ plus_assoc q rf pe
      ∙ plus_left_comm X q rf pe
      ∙ ap (plus rf) h
      ∙ plus_left_comm X rf p re
      ∙ ap (plus p) (sym (received_by-append i fs es))

  pub Audited-trans :
      {L M N : Ledger Quantity} {es fs : List (Entry Quantity)}
      → Audited L es M
      → Audited M fs N
      → Audited L (fs ++ es) N
  Audited-trans {L} {es} {fs} a b = record {
    log = b.log ∙ ap (λ gs. fs ++ gs) a.log ∙ sym (append_assoc fs es L.entries);
    accounts = λ i p e.
        let (q, f, h) = a.accounts i p e in
        let (r, g, k) = b.accounts i q f in (r, g, Accounts-append i es fs p q r h k);
  }

  -- A new account changes no other.
  pub Audited-set_balance :
      (L : Ledger Quantity) (i : ℤ) (q : Quantity)
      → L.balances i ≡ none
      → Audited L [] (set_balance i q L)
  unfolding paid_by received_by
  Audited-set_balance L i q absent = record {
    log = refl;
    accounts = λ j p e.
        (p, update_ne i j q L.balances (λ same. cc (ap L.balances same, e, absent)) ∙ e, refl);
  }
