-- ===== src/Concurrent/Deadlock.antt =====
-- The order of the two locks of `executeTransfer`, and who waits for whom.
use mathlib.Core.Option.{some-injective}
use internal_transfers_syste.Base.{
  refl, ℕ, zero, suc, ◌+◌, ◌≤◌, ◌^◌, ◌≡◌, sym, ◌∙◌, ap, ◌⊎◌, Option-cases, subst, ◌≢◌, inl, inr,
  some, arith, Bool-cases, ◌==◌,
}
use internal_transfers_syste.Base.Int.{ℤ, IsInt64, pos_part, neg_part, ◌<ℤ◌, eq_of_parts, ltb_ℤ}
use internal_transfers_syste.Models.{DecimalLib, Exact}
use internal_transfers_syste.Interfaces.Ledger.{Ledger}
use internal_transfers_syste.Service.Session.{
  Order, beginning, locking_first, locking_second, debiting, crediting, recording, committing,
  rolling_back, returned, first_id, second_id,
}
use internal_transfers_syste.Concurrent.{SessionPc, Database, System, Reach}
use internal_transfers_syste.Concurrent.Family.{eq_of_test, ne_of_test}
use internal_transfers_syste.Concurrent.Knows.{Knows}
use internal_transfers_syste.Concurrent.Serial.{AllKnow, Reach-AllKnow}
use internal_transfers_syste.Concurrent.Release.{Reach-AllMayHold}
use internal_transfers_syste.Concurrent.Waiting.{next_row, MayHold, IsOpen, Waits, FindsFree, Ready}

module _ {D : DecimalLib} (X : Exact D) (order : ℕ → Order D)
    (apart : (i : ℕ) → (order i).source_id ≢ (order i).dest_id)
    (fits : (i : ℕ) → IsInt64 (order i).source_id × IsInt64 (order i).dest_id) where
  ids_rise : (k : ℕ) → first_id (order k) <ℤ second_id (order k)
  ids_rise k = elim (Bool-cases (ltb_ℤ (order k).dest_id (order k).source_id)) [
    | inl lower ↦ rw lower (ground arith)
    | inr higher ↦
        rw higher (ground (arith, apart k, eq_of_parts (order k).source_id (order k).dest_id))
  ]

  second_fits : (k : ℕ) → IsInt64 (second_id (order k))
  second_fits k = elim (Bool-cases (ltb_ℤ (order k).dest_id (order k).source_id)) [
    | inl lower ↦ rw lower ((fits k).0)
    | inr higher ↦ rw higher ((fits k).1)
  ]

  abbrev IsAbove : ℤ → ℤ → Type 0
  IsAbove x y = (x <ℤ y) × IsInt64 y

  -- Who holds a row is open, and a row that it waits for is above.
  abbrev WaitsAbove : Database X → ℕ → ℤ → SessionPc X → Type 0
  WaitsAbove db k x p =
      (y : ℤ) (j : ℕ) → next_row (order k) p ≡ some y → db.owner y ≡ some j → j ≢ k → IsAbove x y

  -- A session does not wait for a row of its own.
  own_row :
      (db : Database X) (k : ℕ) (x z : ℤ)
      → db.owner z ≡ some k
      → (y : ℤ) (j : ℕ) → some z ≡ some y
      → db.owner y ≡ some j
      → j ≢ k
      → IsAbove x y
  own_row db k x z mine y j asks held ne =
      absurd
        (ne (some-injective _ _ (sym held ∙ ap db.owner (sym (some-injective _ _ asks)) ∙ mine)))

  holder-WaitsAbove :
      (k : ℕ) (db : Database X) (x : ℤ) (p : SessionPc X)
      → MayHold (order k) p x
      → Knows X (order k) k p db
      → IsOpen p × WaitsAbove db k x p
  holder-WaitsAbove k db x beginning may knows = absurd may
  holder-WaitsAbove k db x (locking_first _) may knows = absurd may
  holder-WaitsAbove k db x (locking_second _ _) may knows = (
    tt,
    λ y j asks held ne.
        subst (IsAbove x) (some-injective _ _ asks)
          (subst (λ z. z <ℤ second_id (order k)) (sym may) (ids_rise k), second_fits k),
  )
  holder-WaitsAbove k db x (debiting _ s _) may (holds, _) =
      (tt, own_row db k x s.account_id (ap db.owner holds.is_source ∙ holds.owns_source))
  holder-WaitsAbove k db x (crediting _ d) may (_, holds, _) =
      (tt, own_row db k x d.account_id (ap db.owner holds.is_dest ∙ holds.owns_dest))
  holder-WaitsAbove k db x (recording _) may knows = (tt, λ y j asks held ne. cc)
  holder-WaitsAbove k db x (committing _ _) may knows = (tt, λ y j asks held ne. cc)
  holder-WaitsAbove k db x (rolling_back _ _) may knows = (tt, λ y j asks held ne. cc)
  holder-WaitsAbove k db x (returned _) may knows = absurd may

  module _ (s : System X)
      (above : (k : ℕ) (x : ℤ)
        → s.db.owner x ≡ some k
        → IsOpen (s.pc k) × WaitsAbove s.db k x (s.pc k)) where
    blocked_or_free : (i : ℕ) → Waits X order s i ⊎ FindsFree X order s i
    blocked_or_free i = elim (Option-cases (next_row (order i) (s.pc i))) [
      | inl nothing ↦ inr (λ x asks. cc)
      | inr (y, asks) ↦ elim (Option-cases (s.db.owner y)) [
        | inl free ↦ inr (λ x e. inl (ap s.db.owner (same_row e asks) ∙ free))
        | inr (j, held) ↦ elim (Bool-cases (j == i)) [
          | inl same ↦ inr (λ x e.
              inr (ap s.db.owner (same_row e asks) ∙ held ∙ ap some (sym (eq_of_test i j same))))
          | inr other ↦ inl (record {
            row = y;
            holder = j;
            asks = asks;
            held = held;
            another = λ e. ne_of_test i j other (sym e);
          })
        ]
      ]
    ]
      where
        same_row :
            {x y : ℤ}
            → next_row (order i) (s.pc i) ≡ some x
            → next_row (order i) (s.pc i) ≡ some y
            → x ≡ y
        same_row e f = some-injective _ _ (sym e ∙ f)

    -- The chain of holders climbs, and no id is above `2 ^ 63`.
    climb :
        (i n k : ℕ) (x : ℤ)
        → s.db.owner x ≡ some k
        → 2 ^ 63 + neg_part x ≤ pos_part x + n
        → Ready X order i s
    climb i zero k x held near = elim (blocked_or_free k) [
      | inr ready ↦ record {
        who = k;
        in_the_way = inr (x, held);
        is_open = (above k x held).0;
        finds_free = ready;
      }
      | inl w ↦
          let (rises, (fit, _)) = (above k x held).1 w.row w.holder w.asks w.held w.another in
          absurd (omega arith)
    ]
    climb i (suc n) k x held near = elim (blocked_or_free k) [
      | inr ready ↦ record {
        who = k;
        in_the_way = inr (x, held);
        is_open = (above k x held).0;
        finds_free = ready;
      }
      | inl w ↦
          let (rises, (fit, _)) = (above k x held).1 w.row w.holder w.asks w.held w.another in
          climb i n w.holder w.row w.held (omega arith)
    ]

    open_Ready : (i : ℕ) → IsOpen (s.pc i) → Ready X order i s
    open_Ready i open_i = elim (blocked_or_free i) [
      | inr ready ↦ record { who = i; in_the_way = inl refl; is_open = open_i; finds_free = ready }
      | inl w ↦ climb i (2 ^ 63 + neg_part w.row) w.holder w.row w.held (omega arith)
    ]

  -- If every session is for two different accounts with ids of 64 bits, then at every point of every
  -- interleaving at which some session has not returned, there is a session that has not returned and
  -- whose next call, if it locks a row, finds it free or its own: the same session or one with a lock.
  pub Reach-Ready :
      (L : Ledger X.Quantity) {s : System X}
      → Reach X order L s
      → (i : ℕ) → IsOpen (s.pc i)
      → Ready X order i s
  Reach-Ready L {s} r i open_i =
      let knows : AllKnow X order L s = (Reach-AllKnow X order L apart r).0 in
      open_Ready s
        (λ k x h.
          holder-WaitsAbove k s.db x (s.pc k) (Reach-AllMayHold X order L r k x h) (knows k))
        i open_i
