-- ===== src/Service/Session/Rank.antt =====
-- The calls that are left to a session after each answer.
use internal_transfers_syste.Base.{◌≤◌, Bool-cases, inl, inr, arith}
use internal_transfers_syste.Base.Action.{Result, ok, err}
use internal_transfers_syste.Models.{Error, DecimalLib, Account, Transaction}
use internal_transfers_syste.Service.Transfer.{source_of, destination_of}
use internal_transfers_syste.Service.Session.{
  Order, rank, first_id, after_begin, after_first, checked, after_second, after_debit, after_credit,
  after_record, after_commit,
}

module _ {D : DecimalLib} (order : Order D) {Tx : Type 0} where
  pub rank-after_begin : (r : Result Error Tx) → rank (after_begin order r) ≤ 7
  rank-after_begin (ok tx) = omega arith
  rank-after_begin (err e) = omega arith

  module _ (tx : Tx) where
    pub rank-after_first : (r : Result Error (Account D)) → rank (after_first order tx r) ≤ 6
    rank-after_first (ok a) = omega arith
    rank-after_first (err e) = omega arith

    rank-checked : (source dest : Account D) → rank (checked order tx source dest) ≤ 5
    rank-checked source dest = elim (Bool-cases (D.less_than source.balance order.amount)) [
      | inl short ↦ rw short (omega arith)
      | inr enough ↦ rw enough (omega arith)
    ]

    pub rank-after_second :
        (first : Account D) (r : Result Error (Account D))
        → rank (after_second order tx first r) ≤ 5
    rank-after_second first (ok second) =
        rank-checked (source_of (first_id order) order.source_id first second)
          (destination_of (first_id order) order.source_id first second)
    rank-after_second first (err e) = omega arith

    pub rank-after_debit :
        (dest : Account D) (r : Result Error (Unit {0})) → rank (after_debit order tx dest r) ≤ 4
    rank-after_debit dest (ok _) = omega arith
    rank-after_debit dest (err e) = omega arith

    pub rank-after_credit : (r : Result Error (Unit {0})) → rank (after_credit order tx r) ≤ 3
    rank-after_credit (ok _) = omega arith
    rank-after_credit (err e) = omega arith

    pub rank-after_record : (r : Result Error (Transaction D)) → rank (after_record order tx r) ≤ 2
    rank-after_record (ok t) = omega arith
    rank-after_record (err e) = omega arith

    pub rank-after_commit :
        (t : Transaction D) (r : Result Error (Unit {0})) → rank (after_commit order tx t r) ≤ 1
    rank-after_commit t (ok _) = omega arith
    rank-after_commit t (err e) = omega arith
