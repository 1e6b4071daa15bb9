-- ===== src/Transport/Retry.antt =====
-- transport/retry.py: backoff, `Retry-After`, and which statuses are retried. Delays are counted
-- in milliseconds; `random.uniform(0, b)` and `float(text)` are parameters.
pub mod Delays
use keyhole_sdk.Base.{
  ℕ, ◌-◌, ◌*◌, ◌^◌, min, String, Bool, ◌||◌, Option, none, some, ◌==◌, if◌then◌else◌,
}
use keyhole_sdk.Base.Int.{ℤ, max_zero}

pub record RetryConfig : Type 0 where
  pub enabled : Bool
  pub max_retries : ℤ
  pub backoff_base_ms : ℕ
  pub backoff_max_ms : ℕ
  pub respect_retry_after : Bool
  pub jitter : Bool

-- The capped exponential backoff, before jitter.
unfoldable pub capped_ms : ℕ → RetryConfig → ℕ
capped_ms attempt config = min (config.backoff_base_ms * 2 ^ (attempt - 1)) config.backoff_max_ms

backoff : (ℕ → ℕ) → ℕ → RetryConfig → ℕ
backoff uniform attempt config =
    if config.jitter then uniform (capped_ms attempt config) else capped_ms attempt config

unfoldable pub compute_backoff_delay : (ℕ → ℕ) → ℕ → RetryConfig → Option ℤ → ℕ
unfolding backoff
compute_backoff_delay uniform attempt config none = backoff uniform attempt config
compute_backoff_delay uniform attempt config (some retry_after) =
    if config.respect_retry_after then max_zero retry_after else backoff uniform attempt config

unfoldable pub is_retryable_status : ℕ → Bool
is_retryable_status status =
    status == 408 || status == 429 || status == 502 || status == 503 || status == 504

unfoldable pub is_conflict_status : ℕ → Bool
is_conflict_status status = status == 409

unfoldable pub is_rate_limited : ℕ → Bool
is_rate_limited status = status == 429

-- `parse` is Python's `float(raw)`, in milliseconds, with none for a ValueError.
unfoldable pub parse_retry_after : (String → Option ℤ) → (String → Option String) → Option ℤ
parse_retry_after parse header = elim (header "Retry-After") [ none ↦ none | some raw ↦ parse raw ]
