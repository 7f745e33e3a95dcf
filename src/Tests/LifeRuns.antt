-- ===== src/Tests/LifeRuns.antt =====
-- The batch dispatcher's configuration, the life of the consumer service, and a shutdown.
use o4x.Prelude.{
  ◌≤◌, ◌^◌, ◌-◌, ◌≡◌, ◌⊎◌, refl, true, false, not, ◌&&◌, none, some, List, [], ◌∷◌, codes,
  has_suffix,
}
use o4x.Core.Errors.{GoError, ok, err, is, invalid_config}
use o4x.Core.Int64.{pos, less}
use o4x.Core.Dispatcher.{Event, start_called, goroutine_ended, is_healthy}
use o4x.Core.BatchConfig.{
  BatchDispatcherConfig, default_batch_dispatcher_config, new_batch_dispatcher,
}
use o4x.Core.Defaults.{Exceeds}
use o4x.Core.BatchConfigs.{
  IsFaultyBatch, IsCompleteBatch, IsUsableBatch, new_batch_dispatcher_decides,
}
use o4x.Core.Shutdown.{
  graceful_shutdown, gracefully, after_extended_wait, forced, graceful_shutdown-forced,
}
use o4x.Core.Switch.{ends_on, was_ended, kinds, on_all}
use o4x.Consumer.Config.{ServiceConfig, default_service_config}
use o4x.Consumer.Life.{new_service, service_health_status, service_switch, is_healthy-service}

new_batch_dispatcher_decides_example :
    (IsFaultyBatch default_batch_dispatcher_config
      × (e : GoError) × (new_batch_dispatcher (pos 10) default_batch_dispatcher_config ≡ err e)
      × (is e invalid_config ≡ true))
    ⊎ (IsCompleteBatch default_batch_dispatcher_config
        × (c : BatchDispatcherConfig) × (new_batch_dispatcher
              (pos 10)
              default_batch_dispatcher_config
            ≡ ok c)
        × (IsUsableBatch (pos 10) c
            ⊎ Exceeds (2 ^ 58 - 1) default_batch_dispatcher_config.poll_interval
            ⊎ Exceeds (2 ^ 62 - 1) default_batch_dispatcher_config.shutdown_timeout))
new_batch_dispatcher_decides_example =
    new_batch_dispatcher_decides (pos 10) default_batch_dispatcher_config refl

abbrev fifo : ServiceConfig
fifo = record (default_service_config (codes "orders.fifo")) { message_concurrency = pos 4 }

abbrev calls : List Event
calls = start_called ∷ goroutine_ended ∷ []

is_healthy-service_example :
    is_healthy (service_health_status (on_all service_switch calls (new_service fifo))) ≡ (
      not (less (pos 1) fifo.message_concurrency && has_suffix fifo.queue_url (codes ".fifo"))
      && (ends_on true false (kinds service_switch calls)
          && not (was_ended true false (kinds service_switch calls))))
is_healthy-service_example = is_healthy-service fifo calls

graceful_shutdown-forced_example :
    (graceful_shutdown 30 60 none true true ≡ forced)
    × (((graceful_shutdown 30 60 (some 45) true true ≡ forced) × (60 ≤ 45) × (30 ≤ 45))
        ⊎ ((graceful_shutdown 30 60 (some 45) true true ≡ gracefully) × (45 ≤ 30))
        ⊎ ((graceful_shutdown 30 60 (some 45) true true ≡ after_extended_wait)
            × (45 ≤ 60)
            × (30 ≤ 45)))
graceful_shutdown-forced_example = graceful_shutdown-forced 30 60 45 true true
