-- ===== src/Tests/BackoffRuns.antt =====
-- core/model.go: the retries of a message with a base of a second, a limit of an hour, and half of the backoff.
use o4x.Prelude.{◌+◌, ◌*◌, ◌/◌, ◌^◌, ◌≡◌, min, arith}
use o4x.Core.Int64.{ℤ, pos, negsuc, ◌+ℤ◌}
use o4x.Core.Backoff.{calculate_next_retry_at}
use o4x.Core.Backoffs.{calculate_next_retry_at_lem}

abbrev halved : ℤ → ℤ
halved (pos n) = pos (n / 2)
halved (negsuc n) = negsuc (n / 2)

calculate_next_retry_at_lem_example :
    (calculate_next_retry_at halved (pos 7) 3 (pos 1000000000) (pos 3600000000000)
      ≡ pos 7 +ℤ halved (pos (min (1000000000 * 2 ^ 3) 3600000000000)))
    × (calculate_next_retry_at halved (pos 7) (64 + 6) (pos 1000000000) (pos 3600000000000)
        ≡ pos 7 +ℤ halved (pos 0))
calculate_next_retry_at_lem_example =
    calculate_next_retry_at_lem halved (pos 7) (pos 1000000000) 1000000000 3 6 3600000000000
      (omega arith) (omega arith)
