-- ===== src/Repository/Rows.antt =====
-- The loop over the rows of a query returns all of them in their order, or an error.
use mathlib.Core.List.{append-nil, append_assoc}
use internal_transfers_syste.Base.{
  ◌≡◌, refl, sym, ◌∙◌, ap, ◌↔◌, List, [], ◌∷◌, ◌++◌, Option, none, some, map,
}
use internal_transfers_syste.Base.Action.{Result, ok, err}
use internal_transfers_syste.Models.{Error, DecimalLib, Transaction}
use internal_transfers_syste.Repository.Driver.{Rows}
use internal_transfers_syste.Repository.Transaction.{scan_rows, check_rows, read_rows}

module _ {D : DecimalLib} where
  abbrev pub scanned : List (Transaction D) → List (Result Error (Transaction D))
  scanned = map ok

  scan_rows-scanned : (acc ts : List (Transaction D)) → scan_rows acc (scanned ts) ≡ ok (acc ++ ts)
  unfolding scan_rows
  scan_rows-scanned acc [] = ap ok (sym (append-nil acc))
  scan_rows-scanned acc (t ∷ ts) =
      scan_rows-scanned (acc ++ (t ∷ [])) ts ∙ ap ok (append_assoc acc (t ∷ []) ts)

  ok-injective :
      {us ts : List (Transaction D)}
      → ◌≡◌ {A = Result Error (List (Transaction D))} (ok us) (ok ts)
      → us ≡ ts
  ok-injective h = cc

  scan_rows-eq-ok :
      (acc : List (Transaction D)) (scans : List (Result Error (Transaction D)))
      {ts : List (Transaction D)}
      → scan_rows acc scans ≡ ok ts
      → (us : List (Transaction D)) × (scans ≡ scanned us) × (acc ++ us ≡ ts)
  unfolding scan_rows
  scan_rows-eq-ok acc [] {ts} h = ([], refl, append-nil acc ∙ ok-injective h)
  scan_rows-eq-ok acc (err e ∷ scans) h = cc
  scan_rows-eq-ok acc (ok t ∷ scans) h =
      let (us, all, same) = scan_rows-eq-ok (acc ++ (t ∷ [])) scans h in
      (t ∷ us, ap (λ l. ok t ∷ l) all, sym (append_assoc acc (t ∷ []) us) ∙ same)

  checked :
      (failure : Option Error) (scans : List (Result Error (Transaction D)))
      (r : Result Error (List (Transaction D))) {ts : List (Transaction D)}
      → scan_rows [] scans ≡ r
      → check_rows failure r ≡ ok ts
      → (scans ≡ scanned ts) × (failure ≡ none)
  checked none scans (ok us) same h =
      let (vs, all, whole) = scan_rows-eq-ok [] scans same in
      (all ∙ ap scanned (whole ∙ ok-injective h), refl)
  checked (some e) scans (ok us) same h = cc
  checked none scans (err e) same h = cc
  checked (some f) scans (err e) same h = cc

  -- The transactions that a query gives are `ts` exactly if every row was scanned, the rows are `ts`,
  -- and the query did not fail at the end.
  pub read_rows_iff :
      (rows : Rows D) (ts : List (Transaction D))
      → (read_rows rows ≡ ok ts) ↔ ((rows.scans ≡ scanned ts) × (rows.failure ≡ none))
  unfolding read_rows
  read_rows_iff rows ts = (
    λ h. checked rows.failure rows.scans (scan_rows [] rows.scans) refl h,
    λ h. rw (h.0, scan_rows-scanned [] ts, h.1) refl,
  )
