-- ===== src/Gorm/Queries.antt =====
-- contrib/gorm/repo.go: the conditions and the assignments of its queries, on one row: what stands in `Where`, in the maps of
-- `Updates`, and in the raw queries.
use o4x.Prelude.{
  ℕ, ◌+◌, ◌*◌, ◌/◌, ◌^◌, min, Bool, true, false, not, ◌&&◌, Option, none, some, List, [], ◌∷◌, Text,
  codes, text_eq, any_of, ltb, leb, if◌then◌else◌,
}
use o4x.Core.Model.{Outbox, OutboxStatus, enqueued, publishing, published, failed, dead, status_eq}
use o4x.Pgx.Calls.{Call, Database}

-- An entry of the map of `Updates`, or of a `SET` list: a column with its new value.
pub data Column : Type 0 where
  status_to : OutboxStatus → Column
  error_message_to : Option Text → Column
  attempt_count_to : ℕ → Column
  next_retry_at_to : Option ℕ → Column
  updated_at_to : ℕ → Column

abbrev pub assign : Column → Outbox → Outbox
assign (status_to s) r = record r { status = s }
assign (error_message_to m) r = record r { error_message = m }
assign (attempt_count_to n) r = record r { attempt_count = n }
assign (next_retry_at_to at) r = record r { next_retry_at = at }
assign (updated_at_to now) r = record r { updated_at = now }

abbrev pub assign_all : List Column → Outbox → Outbox
assign_all [] r = r
assign_all (c ∷ cs) r = assign_all cs (assign c r)

-- The new values are expressions of the row as it was.
abbrev pub set : (Outbox → List Column) → Outbox → Outbox
set values r = assign_all (values r) r

-- `id = ? AND status = ?`
unfoldable pub publishing_where : Text → Outbox → Bool
publishing_where id r = text_eq r.id id && status_eq r.status publishing

-- `id IN ? AND status = ?`
unfoldable pub publishing_in : List Text → Outbox → Bool
publishing_in ids r = any_of (text_eq r.id) ids && status_eq r.status publishing

abbrev pub is_set : Option ℕ → Bool
is_set none = false
is_set (some at) = true

-- A comparison with NULL is not true.
abbrev pub has_come : ℕ → Option ℕ → Bool
has_come now none = false
has_come now (some at) = leb at now

-- `status = ? AND attempt_count < max_attempts AND next_retry_at IS NOT NULL AND next_retry_at <= …`
unfoldable pub requeue_where : Call → Outbox → Bool
requeue_where call r =
    ((status_eq r.status failed && ltb r.attempt_count r.max_attempts) && is_set r.next_retry_at)
    && has_come call.clock r.next_retry_at

-- `status = ? AND updated_at < clock_timestamp() - interval`, in seconds.
unfoldable pub stuck_where : Call → Database → Outbox → Bool
stuck_where call db r =
    status_eq r.status publishing
    && ltb (r.updated_at + db.stuck_publishing_threshold / 1000000 * 1000000) call.clock

-- `status IN ? AND updated_at < clock_timestamp() - interval`, in microseconds.
unfoldable pub old_where : List OutboxStatus → ℕ → Call → Outbox → Bool
old_where statuses older_than call r =
    any_of (status_eq r.status) statuses && ltb (r.updated_at + older_than) call.clock

-- `status = 'ENQUEUED'`, and no lock of another transaction on the row.
unfoldable pub free_where : Call → Outbox → Bool
free_where call r = status_eq r.status enqueued && not (call.locked r.id)

abbrev pub backoff_at : Call → Database → Outbox → ℕ
backoff_at call db r =
    call.clock + call.jitter r.id (min (db.backoff_base * 2 ^ r.attempt_count) db.backoff_max)

unfoldable pub lock_values : Call → Outbox → List Column
lock_values call r = status_to publishing ∷ updated_at_to call.clock ∷ []

unfoldable pub published_values : Call → Outbox → List Column
published_values call r = status_to published ∷ updated_at_to call.clock ∷ []

unfoldable pub failed_values : Call → Database → Text → Outbox → List Column
failed_values call db err_msg r =
    status_to failed
    ∷ error_message_to (some err_msg)
    ∷ attempt_count_to (r.attempt_count + 1)
    ∷ next_retry_at_to (some (backoff_at call db r))
    ∷ updated_at_to call.clock
    ∷ []

unfoldable pub dead_values : Call → Text → Outbox → List Column
dead_values call err_msg r =
    status_to dead
    ∷ error_message_to (some err_msg)
    ∷ attempt_count_to (min (r.attempt_count + 1) r.max_attempts)
    ∷ updated_at_to call.clock
    ∷ []

unfoldable pub requeued_values : Call → Outbox → List Column
requeued_values call r = status_to enqueued ∷ updated_at_to call.clock ∷ []

-- `attempt_count + 1 >= max_attempts`
abbrev pub is_last : Outbox → Bool
is_last r = leb r.max_attempts (r.attempt_count + 1)

-- Each column has a `CASE` of its own.
unfoldable pub revived_values : Call → Database → Outbox → List Column
revived_values call db r =
    status_to (if is_last r then dead else failed)
    ∷ error_message_to (
        some (
          if is_last r
          then codes "revived from PUBLISHING (crash recovery) - max attempts reached"
          else codes "revived from PUBLISHING (crash recovery)"))
    ∷ attempt_count_to (min (r.attempt_count + 1) r.max_attempts)
    ∷ next_retry_at_to (if is_last r then none else some (backoff_at call db r))
    ∷ updated_at_to call.clock
    ∷ []

-- `modelToCore` of what a `RETURNING` list without `next_retry_at` was scanned into.
abbrev pub returned : Outbox → Outbox
returned r = record r { next_retry_at = none }
