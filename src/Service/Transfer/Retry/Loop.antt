-- ===== src/Service/Transfer/Retry/Loop.antt =====
-- The retry loop: every way in which it ends.
use internal_transfers_syste.Base.{
  ℕ, zero, suc, ◌≡◌, refl, ◌∙◌, ◌≢◌, ◌⊎◌, inl, inr, true, Option, none, some, Bool-cases,
}
use internal_transfers_syste.Base.Int.{ℤ}
use internal_transfers_syste.Base.Action.{Result, ok, err, Post, Action}
use internal_transfers_syste.Models.{
  Error, wrap_error, is_retryable, code_transaction_failed, DecimalLib, Exact, Transaction,
}
use internal_transfers_syste.Interfaces.{Backend}
use internal_transfers_syste.Interfaces.Ledger.{Ledger}
use internal_transfers_syste.Interfaces.Contract.{IsLawful}
use internal_transfers_syste.Service.Transfer.{
  TransferServiceConfig, pause, resume, settle, retry_loop,
}
use internal_transfers_syste.Service.Transfer.Spec.{IsSolvent, Refused, Raised, Done, Failure}
use internal_transfers_syste.Service.Transfer.Attempt.{execute_transfer-Triple}

-- The loop has given up: it wraps the error of its last round, which was transient; or it made no
-- round at all, and wraps the error that it was given.
abbrev pub Exhausted : ℕ → Option Error → Error → Type 0
Exhausted left last e =
    (o : Option Error) × (e ≡ wrap_error code_transaction_failed "transfer failed after retries" o)
    × ((is_retryable o ≡ true) ⊎ ((left ≡ 0) × (o ≡ last)))

module _ {D : DecimalLib} (X : Exact D) {B : Backend D} (law : IsLawful X B) (L : Ledger X.Quantity)
    (answered : (e : Error) → ¬ (law.Lost e)) where
  open X use {Quantity, value, origin, lt}
  open law use {Fault, committed}

  -- Why a round, or the loop, ends in an error.
  abbrev pub Reason : ℤ → ℤ → D.Decimal → Error → Type 0
  Reason s d amount e = Refused X L s d amount e ⊎ Raised X Fault e

  -- What the loop may end in, with `left` rounds to go and `last` the error of the last one.
  abbrev pub Ends :
      ℤ → ℤ → D.Decimal → ℕ → Option Error → Result Error (Transaction D) × B.World → Type 0
  Ends s d amount left last =
      Post (λ t w. Done X L s d amount t (committed w))
        (λ e w. (committed w ≡ L) × (Reason s d amount e ⊎ Exhausted left last e))

  module _ (config : TransferServiceConfig) (s d : ℤ) (amount : D.Decimal) (ne : s ≢ d)
      (positive : lt origin (value amount) ≡ true) (solvent : IsSolvent X L) where
    pause_keeps : (attempt : ℕ) (w : B.World) → committed (pause B config attempt w).1 ≡ committed w
    unfolding pause
    pause_keeps zero w = refl
    pause_keeps (suc k) w = law.wait_lem _ w

    pause-Fault :
        (attempt : ℕ) (w : B.World) {e : Error} → (pause B config attempt w).0 ≡ some e → Fault e
    unfolding pause
    pause-Fault zero w h = cc
    pause-Fault (suc k) w h = law.wait-Fault _ w h

    -- A round that failed has left the ledger alone.
    failed :
        {e : Error} {w : B.World}
        → Failure X law L s d amount e (committed w)
        → (committed w ≡ L) × Reason s d amount e
    failed (inl h) = h
    failed (inr (t, done, f, lost, e)) = absurd (answered f lost)

    -- After a round: the rounds that follow, for an error that is transient, have `left` to go.
    settle-Ends :
        (left : ℕ) (last : Option Error) (again : Error → Action B.World Error (Transaction D))
        → ((e : Error) (w : B.World) → committed w ≡ L → Ends s d amount left (some e) (again e w))
        → (x : Result Error (Transaction D) × B.World)
        → Post
            (λ t w. Done X L s d amount t (committed w))
            (λ e w. Failure X law L s d amount e (committed w))
            x
        → Ends s d amount (suc left) last (settle B config again x)
    settle-Ends left last again next (ok t, w) h = h
    settle-Ends left last again next (err e, w) h = elim (Bool-cases (is_retryable (some e))) [
      | inl transient ↦ rw transient (carried transient (again e w) (next e w (failed h).0))
      | inr final ↦ rw final ((failed h).0, inl (failed h).1)
    ]
      where
        carried :
            is_retryable (some e) ≡ true
            → (y : Result Error (Transaction D) × B.World) → Ends s d amount left (some e) y
            → Ends s d amount (suc left) last y
        carried transient (ok t, v) q = q
        carried transient (err f, v) (same, inl why) = (same, inl why)
        carried transient (err f, v) (same, inr (o, wrapped, inl again_transient)) =
            (same, inr (o, wrapped, inl again_transient))
        carried transient (err f, v) (same, inr (o, wrapped, inr (none_left, first))) =
            (same, inr (o, wrapped, inl (rw first transient)))

    resume-Ends :
        (left : ℕ) (last : Option Error) (round : Action B.World Error (Transaction D))
        → ((w : B.World) → committed w ≡ L → Ends s d amount left last (round w))
        → (x : Option Error × B.World) → committed x.1 ≡ L
        → ((e : Error) → x.0 ≡ some e → Fault e)
        → Ends s d amount left last (resume B config round x)
    resume-Ends left last round h (none, w) same f = h w same
    resume-Ends left last round h (some e, w) same f = (same, inl (inr (inl (f e refl))))

    pub retry_loop-Ends :
        (left attempt : ℕ) (last : Option Error) (w : B.World)
        → committed w ≡ L
        → Ends s d amount left last (retry_loop B config left attempt last s d amount w)
    unfolding retry_loop
    retry_loop-Ends zero attempt last w h = (h, inr (last, refl, inr (refl, refl)))
    retry_loop-Ends (suc left) attempt last w h =
        resume-Ends (suc left) last _
          (λ w₁ h₁.
            settle-Ends left last _ (λ e. retry_loop-Ends left (suc attempt) (some e)) _
              ((execute_transfer-Triple X law L s d amount ne positive solvent).run w₁ h₁))
          (pause B config attempt w) (pause_keeps attempt w ∙ h) (λ e q. pause-Fault attempt w q)
