-- ===== src/Core/DispatcherConfig.antt =====
-- core/dispatcher.go: `NewDispatcher` on its configuration. Durations are `int64` nanoseconds, so that they
-- may be negative and their products wrap around. The logger and `OnForceShutdown` are left out.
use o4x.Prelude.{Bool, true, false, not, ◌&&◌, ◌||◌, [], codes, if◌then◌else◌}
use o4x.Core.Int64.{ℤ, pos, is_negative, is_zero, less, times}
use o4x.Core.Errors.{sentinel, wrapped, invalid_config, Result, ok, err}

pub record DispatcherConfig : Type 0 where
  pub poll_interval : ℤ
  pub max_poll_interval : ℤ
  pub worker_count : ℤ
  pub shutdown_timeout : ℤ
  pub force_timeout : ℤ
  pub auto_recover : Bool
  pub requeue_interval : ℤ
  pub disable_auto_requeue : Bool
  pub cleanup_timeout : ℤ

unfoldable pub default_dispatcher_config : DispatcherConfig
default_dispatcher_config = record {
  poll_interval = pos 100000000;
  max_poll_interval = pos 3200000000;
  worker_count = pos 1;
  shutdown_timeout = pos 30000000000;
  force_timeout = pos 60000000000;
  auto_recover = true;
  requeue_interval = pos 10000000000;
  disable_auto_requeue = false;
  cleanup_timeout = pos 10000000000;
}

unfoldable pub has_negative : DispatcherConfig → Bool
has_negative c =
    is_negative c.poll_interval
    || (is_negative c.max_poll_interval
        || (is_negative c.worker_count
            || (is_negative c.shutdown_timeout
                || (is_negative c.force_timeout
                    || (is_negative c.cleanup_timeout || is_negative c.requeue_interval)))))

unfoldable pub or_default : ℤ → ℤ → ℤ
or_default z d = if is_zero z then d else z

-- The adjustment of a `ForceTimeout` below `ShutdownTimeout`.
unfoldable pub adjusted : ℤ → ℤ → ℤ
adjusted force shutdown = if less force shutdown then times 2 shutdown else force

unfoldable pub with_defaults : DispatcherConfig → DispatcherConfig
with_defaults c =
    let poll = or_default c.poll_interval (pos 100000000) in
    let shutdown = or_default c.shutdown_timeout (pos 30000000000) in
    record c {
      poll_interval = poll;
      max_poll_interval = or_default c.max_poll_interval (times 32 poll);
      worker_count = or_default c.worker_count (pos 1);
      shutdown_timeout = shutdown;
      force_timeout = adjusted (or_default c.force_timeout (times 2 shutdown)) shutdown;
      cleanup_timeout = or_default c.cleanup_timeout (pos 10000000000);
    }

unfoldable pub no_requeue : DispatcherConfig → Bool
no_requeue c = is_zero c.requeue_interval && not c.disable_auto_requeue

unfoldable pub new_dispatcher : DispatcherConfig → Result DispatcherConfig
new_dispatcher c =
    if has_negative c
    then err (sentinel invalid_config)
    else (if no_requeue c
        then err (
            wrapped [] (sentinel invalid_config) (
              codes
                ": RequeueInterval must be > 0 (e.g., 10s for production, 500ms-1s for bench). FAILED messages will never retry without this. Set DisableAutoRequeue=true to explicitly disable"))
        else ok (with_defaults c))
