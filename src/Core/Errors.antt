-- ===== src/Core/Errors.antt =====
-- core/errors.go: the error values of the library, how they wrap one another, and `IsRetryable`.
-- (`ErrUnknownEventType` of contrib/sqs/consumer/handler.go is a sentinel too.)

use o4x.Prelude.{◌≡◌, refl, Bool, true, false, Option, none, some, ◌++◌, Text, codes}

-- `var Err… = errors.New(…)`
pub data Sentinel : Type 0 where
  no_message already_exists publish_failed max_retries_exceeded invalid_status not_found : Sentinel
  already_running invalid_table_name payload_too_large invalid_config : Sentinel
  unknown_event_type : Sentinel

pub Sentinel-discrete : Discrete Sentinel
Sentinel-discrete = hlevel

-- A value of Go's interface type `error`. `nil` is the nil interface; `external` is an error of a
-- driver or of the SDK, which wraps nothing and has no method `IsRetryable`; `custom` is an error of
-- the application that implements `RetryableError`; `wrapped m c n` is `fmt.Errorf` with
-- the text `m` before `%w` and `n` behind it.
pub data GoError : Type 0 where
  nil : GoError
  sentinel : Sentinel → GoError
  external : Text → GoError
  custom : Bool → Text → GoError
  wrapped : Text → GoError → Text → GoError
  permanent : GoError → GoError
  transient : GoError → GoError
  publish_error : Text → Text → GoError → GoError

-- A pair `(value, error)` of which exactly one is meant.
pub data Result {ℓ} (A : Type ℓ) : Type ℓ where
  ok : A → Result A
  err : GoError → Result A

abbrev pub is_nil : GoError → Bool
is_nil nil = true
is_nil _ = false

abbrev pub same_sentinel : Sentinel → Sentinel → Bool
same_sentinel a b = elim (Sentinel-discrete a b) [ yes _ ↦ true | no _ ↦ false ]

pub same_sentinel_refl : (s : Sentinel) → same_sentinel s s ≡ true
same_sentinel_refl s = found (Sentinel-discrete s s)
  where
    found : (d : Dec (s ≡ s)) → elim d [ yes _ ↦ true | no _ ↦ false ] ≡ true
    found (yes e) = refl
    found (no n) = absurd (n refl)

-- `errors.Is(err, target)`: the chain of `Unwrap` holds the sentinel.
unfoldable pub is : GoError → Sentinel → Bool
is nil t = false
is (sentinel s) t = same_sentinel s t
is (external m) t = false
is (custom b m) t = false
is (wrapped m c n) t = is c t
is (permanent c) t = is c t
is (transient c) t = is c t
is (publish_error i e c) t = is c t

-- What `IsRetryable` answers, given what the first `RetryableError` of the chain answers.
abbrev pub retry_answer : GoError → Option Bool → Bool
retry_answer nil found = false
retry_answer _ none = true
retry_answer _ (some b) = b

-- `errors.As(err, &retryable)`, with the answer of the error that it finds.
unfoldable pub as_retryable : GoError → Option Bool
as_retryable nil = none
as_retryable (sentinel s) = none
as_retryable (external m) = none
as_retryable (custom b m) = some b
as_retryable (wrapped m c n) = as_retryable c
as_retryable (permanent c) = some false
as_retryable (transient c) = some true
as_retryable (publish_error i e c) = some (retry_answer c (as_retryable c))

unfoldable pub is_retryable : GoError → Bool
unfolding as_retryable
is_retryable e = retry_answer e (as_retryable e)

unfoldable pub new_permanent_error : GoError → GoError
new_permanent_error cause = permanent cause

unfoldable pub new_transient_error : GoError → GoError
new_transient_error cause = transient cause

unfoldable pub sentinel_text : Sentinel → Text
sentinel_text no_message = codes "no message available"
sentinel_text already_exists = codes "message already exists"
sentinel_text publish_failed = codes "publish failed"
sentinel_text max_retries_exceeded = codes "max retries exceeded"
sentinel_text invalid_status = codes "invalid status"
sentinel_text not_found = codes "not found"
sentinel_text already_running = codes "dispatcher already running"
sentinel_text invalid_table_name =
    codes "invalid table name: must contain only alphanumeric characters and underscores"
sentinel_text payload_too_large = codes "payload too large"
sentinel_text invalid_config = codes "invalid configuration"
sentinel_text unknown_event_type = codes "unknown event_type"

-- `err.Error()`; a nil cause is printed by `%v` as `<nil>`.
unfoldable pub error_text : GoError → Text
unfolding sentinel_text
error_text nil = codes "<nil>"
error_text (sentinel s) = sentinel_text s
error_text (external m) = m
error_text (custom b m) = m
error_text (wrapped m c n) = m ++ (error_text c ++ n)
error_text (permanent c) = codes "permanent error: " ++ error_text c
error_text (transient c) = codes "transient error: " ++ error_text c
error_text (publish_error i e c) =
    codes "publish error for outbox "
    ++ (i ++ (codes " event_type " ++ (e ++ (codes ": " ++ error_text c))))
