-- ===== src/Pgx/Rows.antt =====
-- contrib/pgx/repo.go: the `WHERE` and `SET` parts of the queries, on one row.
use o4x.Prelude.{
  ℕ, ◌+◌, ◌*◌, ◌/◌, ◌^◌, min, Bool, false, ◌&&◌, Option, none, some, ◌++◌, Text, codes,
  if◌then◌else◌, ltb, leb, any_of,
}
use o4x.Core.Errors.{external, Result, ok, err}
use o4x.Core.Model.{Outbox, enqueued, publishing, published, failed, dead, status_eq}
use o4x.Pgx.Calls.{Call, Database}
use o4x.Pgx.Table.{Table, has_id}

abbrev pub publishing_with : Text → Outbox → Bool
publishing_with j r = has_id j r && status_eq r.status publishing

-- A row as the queries without the column `next_retry_at` scan it.
abbrev pub scanned : Outbox → Outbox
scanned r = record r { next_retry_at = none }

-- `updated_at < clock_timestamp() - age`
abbrev pub older_than : ℕ → ℕ → Outbox → Bool
older_than clock age r = ltb (r.updated_at + age) clock

-- `base * POWER(2, attempt_count)`, which the server refuses beyond 64 bits of microseconds.
abbrev pub backoff_overflows : ℕ → Outbox → Bool
backoff_overflows base r = leb (2 ^ 63) (base * 2 ^ r.attempt_count)

abbrev pub retry_at : Call → Database → Outbox → ℕ
retry_at call db r =
    call.clock + call.jitter r.id (min (db.backoff_base * 2 ^ r.attempt_count) db.backoff_max)

-- An `UPDATE` that computes the backoff of some rows fails as a whole if one overflows.
abbrev pub unless_overflow :
    {A : Type 0} → Database → (Outbox → Bool) → Table → Table × A → Result (Table × A)
unless_overflow db p t done =
    if any_of (λ r. p r && backoff_overflows db.backoff_base r) t
    then err (external (codes "interval out of range"))
    else ok done

-- What the `SET` lists of the four updates write.
unfoldable pub publish_row : Call → Outbox → Outbox
publish_row call r = record r { status = published; updated_at = call.clock }

unfoldable pub fail_row : Call → Database → Text → Outbox → Outbox
fail_row call db message r = record r {
  status = failed;
  error_message = some message;
  attempt_count = r.attempt_count + 1;
  next_retry_at = some (retry_at call db r);
  updated_at = call.clock;
}

unfoldable pub kill_row : Call → Text → Outbox → Outbox
kill_row call message r = record r {
  status = dead;
  error_message = some message;
  attempt_count = min (r.attempt_count + 1) r.max_attempts;
  updated_at = call.clock;
}

unfoldable pub lock_row : Call → Outbox → Outbox
lock_row call r = record r { status = publishing; updated_at = call.clock }

unfoldable pub requeue_row : Call → Outbox → Outbox
requeue_row call r = record r { status = enqueued; updated_at = call.clock }

abbrev pub is_due : ℕ → Option ℕ → Bool
is_due clock none = false
is_due clock (some at) = leb at clock

-- The `WHERE` of `queryRequeueFailed`.
unfoldable pub requeueable : Call → Outbox → Bool
requeueable call r =
    status_eq r.status failed
    && (ltb r.attempt_count r.max_attempts && is_due call.clock r.next_retry_at)

abbrev pub attempts_used_up : Outbox → Bool
attempts_used_up r = leb r.max_attempts (r.attempt_count + 1)

abbrev pub revived : Text
revived = codes "revived from PUBLISHING (crash recovery)"

unfoldable pub revive_row : Call → Database → Outbox → Outbox
revive_row call db r =
    if attempts_used_up r
    then record r {
      status = dead;
      error_message = some (revived ++ codes " - max attempts reached");
      attempt_count = min (r.attempt_count + 1) r.max_attempts;
      next_retry_at = none;
      updated_at = call.clock;
    }
    else record r {
      status = failed;
      error_message = some revived;
      attempt_count = min (r.attempt_count + 1) r.max_attempts;
      next_retry_at = some (retry_at call db r);
      updated_at = call.clock;
    }

-- `int64(r.stuckPublishingThreshold.Seconds())`, as microseconds again.
abbrev pub whole_seconds : ℕ → ℕ
whole_seconds d = d / 1000000 * 1000000

-- The `WHERE` of `queryReviveStuckPublishing`.
unfoldable pub stuck : Call → Database → Outbox → Bool
stuck call db r =
    status_eq r.status publishing
    && older_than call.clock (whole_seconds db.stuck_publishing_threshold) r
