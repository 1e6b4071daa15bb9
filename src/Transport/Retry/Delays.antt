-- ===== src/Transport/Retry/Delays.antt =====
-- Bounds on the delay between two attempts.
use keyhole_sdk.Base.{
  ℕ, ◌-◌, ◌*◌, ◌^◌, ◌≤◌, ◌≡◌, refl, ◌⊎◌, true, false, Option, none, some, arith, Bool-cases, inl,
  inr,
}
use keyhole_sdk.Base.Int.{ℤ, max_zero}
use keyhole_sdk.Transport.Retry.{RetryConfig, capped_ms, backoff, compute_backoff_delay}

capped_ms-le :
    (n : ℕ) (config : RetryConfig)
    → (capped_ms n config ≤ config.backoff_max_ms)
      × (capped_ms n config ≤ config.backoff_base_ms * 2 ^ (n - 1))
unfolding capped_ms
capped_ms-le n config = (omega arith, omega arith)

backoff-le :
    (uniform : ℕ → ℕ) (n : ℕ) (config : RetryConfig)
    → ((b : ℕ) → uniform b ≤ b)
    → backoff uniform n config ≤ capped_ms n config
unfolding backoff
backoff-le uniform n config draws = ground (arith, draws (capped_ms n config))

-- A delay is the one that the server asked for, if it named one and the configuration respects it;
-- any other delay is at most the configured maximum, and at most the base doubled once for each
-- attempt before this one, whatever is drawn for the jitter between 0 and its bound.
compute_backoff_delay_bounds :
    (uniform : ℕ → ℕ) (n : ℕ) (config : RetryConfig) (after : Option ℤ)
    → ((b : ℕ) → uniform b ≤ b)
    → ((config.respect_retry_after ≡ true)
        × ((z : ℤ) × (after ≡ some z)
            × (compute_backoff_delay uniform n config after ≡ max_zero z)))
      ⊎ ((compute_backoff_delay uniform n config after ≤ config.backoff_max_ms)
          × (compute_backoff_delay uniform n config after ≤ config.backoff_base_ms * 2 ^ (n - 1)))
unfolding compute_backoff_delay
compute_backoff_delay_bounds uniform n config none draws =
    let (a, b) = capped_ms-le n config in
    let c = backoff-le uniform n config draws in inr (omega arith, omega arith)
compute_backoff_delay_bounds uniform n config (some z) draws =
    let (a, b) = capped_ms-le n config in
    let c = backoff-le uniform n config draws in
    elim (Bool-cases config.respect_retry_after) [
      | inl e ↦ inl (e, (z, refl, rw e refl))
      | inr e ↦ simp e (inr (omega arith, omega arith))
    ]

pub compute_backoff_delay-le-max :
    (uniform : ℕ → ℕ) (n : ℕ) (config : RetryConfig) (after : Option ℤ)
    → ((b : ℕ) → uniform b ≤ b)
    → config.respect_retry_after ≡ false
    → compute_backoff_delay uniform n config after ≤ config.backoff_max_ms
compute_backoff_delay-le-max uniform n config after draws ignored =
    elim (compute_backoff_delay_bounds uniform n config after draws) [
      | inl (e, other) ↦ cc (e, ignored)
      | inr (a, b) ↦ a
    ]
