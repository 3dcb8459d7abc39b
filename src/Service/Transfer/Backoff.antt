-- ===== src/Service/Transfer/Backoff.antt =====
-- The pauses between rounds: exponential, and free of overflow up to 64 bits.
use native.Mathlib.Nat.{pow-suc}
use internal_transfers_syste.Base.{ℕ, zero, suc, ◌+◌, ◌*◌, ◌^◌, ◌<◌, ◌≡◌, ◌∙◌, ap, arith}
use internal_transfers_syste.Base.Int.{ℤ, pos, pos_part, ◌*ℤ◌, wrap64, wrap64_id}
use internal_transfers_syste.Service.Transfer.{TransferServiceConfig, retry_delay}

-- The pauses before the first `n` retries, added up.
pub total_delay : TransferServiceConfig → ℕ → ℕ
total_delay config zero = 0
total_delay config (suc k) = total_delay config k + pos_part (retry_delay config k)

*ℤ-pos : (a b : ℕ) → pos a *ℤ pos b ≡ pos (a * b)
unfolding ◌*ℤ◌
*ℤ-pos a b = ground arith

power_fits : (b k : ℕ) → 0 < b → b * 2 ^ k < 2 ^ 63 → 2 ^ k < 2 ^ 63
power_fits b k h fits = grind arith

shorter : (b k : ℕ) → b * 2 ^ (suc k) < 2 ^ 63 → b * 2 ^ k < 2 ^ 63
shorter b k fits = omega (arith, ap (λ (p : ℕ). b * p) (pow-suc 2 k))

-- While the product fits in an `int64`, the pause before retry `k + 1` is the base times 2^k.
retry_delay-pos :
    (b k : ℕ) (n : ℤ)
    → 0 < b
    → b * 2 ^ k < 2 ^ 63
    → retry_delay (record { max_retries = n; retry_base_delay = pos b }) k ≡ pos (b * 2 ^ k)
unfolding retry_delay
retry_delay-pos b k n h fits =
    ap (λ p. wrap64 (pos b *ℤ p)) (wrap64_id (pos (2 ^ k)) (power_fits b k h fits, omega arith))
    ∙ ap wrap64 (*ℤ-pos b (2 ^ k))
    ∙ wrap64_id (pos (b * 2 ^ k)) (fits, omega arith)

-- For a base delay `b` above zero, as long as `b * 2 ^ k` is below 2 ^ 63, the pauses before the first
-- `k + 1` retries add up to `b * 2 ^ (k + 1) - b` nanoseconds, without overflow.
pub total_delay_lem :
    (b k : ℕ) (n : ℤ)
    → 0 < b
    → b * 2 ^ k < 2 ^ 63
    → total_delay (record { max_retries = n; retry_base_delay = pos b }) (suc k) + b
      ≡ b * 2 ^ (suc k)
unfolding total_delay
total_delay_lem b zero n h fits = omega (arith, ap pos_part (retry_delay-pos b zero n h fits))
total_delay_lem b (suc k) n h fits = omega (
  arith,
  ap pos_part (retry_delay-pos b (suc k) n h fits),
  total_delay_lem b k n h (shorter b k fits),
  ap (λ (p : ℕ). b * p) (pow-suc 2 (suc k)),
)
