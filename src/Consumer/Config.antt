-- ===== src/Consumer/Config.antt =====
-- contrib/sqs/consumer/service.go: `NewService` on its configuration. `int32` and `int` fields are integers, durations
-- are nanoseconds in 64 bits. The logger, the hooks and `OnForceShutdown` are left out.
use o4x.Prelude.{Text}
use o4x.Core.Int64.{ℤ, pos, times}
use o4x.Core.DispatcherConfig.{or_default}

pub record ServiceConfig : Type 0 where
  pub queue_url : Text
  pub max_number_of_messages : ℤ
  pub wait_time_seconds : ℤ
  pub visibility_timeout : ℤ
  pub max_attempts : ℤ
  pub worker_count : ℤ
  pub message_concurrency : ℤ
  pub shutdown_timeout : ℤ
  pub force_timeout : ℤ

unfoldable pub default_service_config : Text → ServiceConfig
default_service_config queue_url = record {
  queue_url = queue_url;
  max_number_of_messages = pos 10;
  wait_time_seconds = pos 20;
  visibility_timeout = pos 30;
  max_attempts = pos 5;
  worker_count = pos 1;
  message_concurrency = pos 1;
  shutdown_timeout = pos 30000000000;
  force_timeout = pos 60000000000;
}

unfoldable pub with_service_defaults : ServiceConfig → ServiceConfig
with_service_defaults c =
    let shutdown = or_default c.shutdown_timeout (pos 30000000000) in
    record c {
      max_number_of_messages = or_default c.max_number_of_messages (pos 10);
      wait_time_seconds = or_default c.wait_time_seconds (pos 20);
      visibility_timeout = or_default c.visibility_timeout (pos 30);
      max_attempts = or_default c.max_attempts (pos 5);
      worker_count = or_default c.worker_count (pos 1);
      message_concurrency = or_default c.message_concurrency (pos 1);
      shutdown_timeout = shutdown;
      force_timeout = or_default c.force_timeout (times 2 shutdown);
    }
