-- ===== src/Core/BatchConfig.antt =====
-- core/batch_dispatcher.go: `NewBatchDispatcher` on its configuration; `max_size` is the publisher's
-- `MaxBatchSize`. The rest is as in Core/DispatcherConfig.antt.
use o4x.Prelude.{Bool, true, false, not, ◌&&◌, ◌||◌, [], codes, if◌then◌else◌}
use o4x.Core.Int64.{ℤ, pos, is_negative, is_zero, less, times}
use o4x.Core.Errors.{sentinel, wrapped, invalid_config, Result, ok, err}
use o4x.Core.DispatcherConfig.{or_default, adjusted}

pub record BatchDispatcherConfig : Type 0 where
  pub poll_interval : ℤ
  pub max_poll_interval : ℤ
  pub batch_size : ℤ
  pub worker_count : ℤ
  pub shutdown_timeout : ℤ
  pub force_timeout : ℤ
  pub auto_recover : Bool
  pub requeue_interval : ℤ
  pub disable_auto_requeue : Bool
  pub requeue_backoff_base : ℤ
  pub requeue_backoff_max : ℤ
  pub cleanup_timeout : ℤ

unfoldable pub default_batch_dispatcher_config : BatchDispatcherConfig
default_batch_dispatcher_config = record {
  poll_interval = pos 100000000;
  max_poll_interval = pos 3200000000;
  batch_size = pos 10;
  worker_count = pos 1;
  shutdown_timeout = pos 30000000000;
  force_timeout = pos 60000000000;
  auto_recover = true;
  requeue_interval = pos 10000000000;
  disable_auto_requeue = false;
  requeue_backoff_base = pos 1000000000;
  requeue_backoff_max = pos 3600000000000;
  cleanup_timeout = pos 10000000000;
}

unfoldable pub has_negative_field : BatchDispatcherConfig → Bool
has_negative_field c =
    is_negative c.poll_interval
    || (is_negative c.max_poll_interval
        || (is_negative c.batch_size
            || (is_negative c.worker_count
                || (is_negative c.shutdown_timeout
                    || (is_negative c.force_timeout
                        || (is_negative c.requeue_interval
                            || (is_negative c.requeue_backoff_base
                                || (is_negative c.requeue_backoff_max
                                    || is_negative c.cleanup_timeout))))))))

-- The cut of a `BatchSize` above the publisher's.
unfoldable pub within_publisher : ℤ → ℤ → ℤ
within_publisher max_size size = if less max_size size then max_size else size

unfoldable pub with_batch_defaults : ℤ → BatchDispatcherConfig → BatchDispatcherConfig
with_batch_defaults max_size c =
    let poll = or_default c.poll_interval (pos 100000000) in
    let shutdown = or_default c.shutdown_timeout (pos 30000000000) in
    record c {
      poll_interval = poll;
      max_poll_interval = or_default c.max_poll_interval (times 32 poll);
      batch_size = within_publisher max_size (or_default c.batch_size max_size);
      worker_count = or_default c.worker_count (pos 1);
      shutdown_timeout = shutdown;
      force_timeout = adjusted (or_default c.force_timeout (times 2 shutdown)) shutdown;
      requeue_backoff_base = or_default c.requeue_backoff_base (pos 1000000000);
      requeue_backoff_max = or_default c.requeue_backoff_max (pos 3600000000000);
      cleanup_timeout = or_default c.cleanup_timeout (pos 10000000000);
    }

unfoldable pub never_requeues : BatchDispatcherConfig → Bool
never_requeues c = is_zero c.requeue_interval && not c.disable_auto_requeue

unfoldable pub new_batch_dispatcher : ℤ → BatchDispatcherConfig → Result BatchDispatcherConfig
new_batch_dispatcher max_size c =
    if has_negative_field c
    then err (sentinel invalid_config)
    else (if never_requeues c
        then err (
            wrapped [] (sentinel invalid_config) (
              codes
                ": RequeueInterval must be > 0 (e.g., 10s for production, 500ms-1s for bench). FAILED messages will never retry without this. Set DisableAutoRequeue=true to explicitly disable"))
        else ok (with_batch_defaults max_size c))
