-- ===== src/Core/Model.antt =====
-- core/model.go: the outbox message, its states, and the questions about its attempts. `int` counters
-- are natural numbers; `json.RawMessage` is its bytes, and a nil one is `none` where that matters.
-- Times are natural numbers (microseconds since an epoch); a nil `*time.Time` is `none`.
use o4x.Prelude.{ℕ, ◌+◌, Bool, true, false, Option, Text, codes, ltb, leb}

pub data OutboxStatus : Type 0 where
  enqueued publishing published failed dead : OutboxStatus

pub OutboxStatus-discrete : Discrete OutboxStatus
OutboxStatus-discrete = hlevel

abbrev pub status_eq : OutboxStatus → OutboxStatus → Bool
status_eq enqueued enqueued = true
status_eq publishing publishing = true
status_eq published published = true
status_eq failed failed = true
status_eq dead dead = true
status_eq _ _ = false

unfoldable pub status_text : OutboxStatus → Text
status_text enqueued = codes "ENQUEUED"
status_text publishing = codes "PUBLISHING"
status_text published = codes "PUBLISHED"
status_text failed = codes "FAILED"
status_text dead = codes "DEAD"

pub record Outbox : Type 0 where
  pub id : Text
  pub event_type : Text
  pub payload : Text
  pub metadata : Option Text
  pub idempotency_key : Text
  pub status : OutboxStatus
  pub error_message : Option Text
  pub attempt_count : ℕ
  pub max_attempts : ℕ
  pub next_retry_at : Option ℕ
  pub created_at : ℕ
  pub updated_at : ℕ

pub record OutboxInsertParams : Type 0 where
  pub event_type : Text
  pub payload : Text
  pub metadata : Option Text
  pub idempotency_key : Text
  pub max_attempts : ℕ

unfoldable pub can_retry : Outbox → Bool
can_retry o = ltb o.attempt_count o.max_attempts

unfoldable pub should_mark_dead : Outbox → Bool
should_mark_dead o = leb o.max_attempts o.attempt_count

unfoldable pub will_exceed_max_attempts_after_failure : Outbox → Bool
will_exceed_max_attempts_after_failure o = leb o.max_attempts (o.attempt_count + 1)
