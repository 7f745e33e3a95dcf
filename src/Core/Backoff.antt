-- ===== src/Core/Backoff.antt =====
-- core/model.go: `CalculateNextRetryAt`. The product with the jitter goes through `float64` and is the
-- parameter `jittered`.
use o4x.Prelude.{ℕ, if◌then◌else◌}
use o4x.Core.Int64.{ℤ, less, mul64, shift_one, ◌+ℤ◌}

-- The backoff before the jitter.
unfoldable pub capped_backoff : ℕ → ℤ → ℤ → ℤ
capped_backoff attempt_count base_interval max_interval =
    let backoff = mul64 base_interval (shift_one attempt_count) in
    if less max_interval backoff then max_interval else backoff

unfoldable pub calculate_next_retry_at : (ℤ → ℤ) → ℤ → ℕ → ℤ → ℤ → ℤ
calculate_next_retry_at jittered now attempt_count base_interval max_interval =
    now +ℤ jittered (capped_backoff attempt_count base_interval max_interval)
