-- ===== src/Tests/DispatcherRuns.antt =====
-- core/dispatcher.go on the default configuration.
use mathlib.Core.Path.{refl}
use o4x.Prelude.{◌≡◌, ◌⊎◌, ◌^◌, ◌-◌, true, false, not, ◌&&◌, List, [], ◌∷◌}
use o4x.Core.Errors.{GoError, ok, err, is, invalid_config}
use o4x.Core.DispatcherConfig.{DispatcherConfig, default_dispatcher_config, new_dispatcher}
use o4x.Core.Defaults.{Exceeds}
use o4x.Core.Configs.{IsFaulty, IsComplete, IsUsable, new_dispatcher_decides}
use o4x.Core.Dispatcher.{
  Event, start_called, stop_called, stop_ended, goroutine_ended, created, happen, happen_all, start,
  stop, stopped, health_status, is_healthy,
}
use o4x.Core.Health.{was_started, was_stopped, is_healthy-happen_all}

new_dispatcher_decides_example :
    (IsFaulty default_dispatcher_config
      × (e : GoError) × (new_dispatcher default_dispatcher_config ≡ err e)
      × (is e invalid_config ≡ true))
    ⊎ (IsComplete default_dispatcher_config
        × (c : DispatcherConfig) × (new_dispatcher default_dispatcher_config ≡ ok c)
        × (IsUsable c
            ⊎ Exceeds (2 ^ 58 - 1) default_dispatcher_config.poll_interval
            ⊎ Exceeds (2 ^ 62 - 1) default_dispatcher_config.shutdown_timeout))
new_dispatcher_decides_example = new_dispatcher_decides default_dispatcher_config

abbrev restart : List Event
restart = start_called ∷ stop_called ∷ goroutine_ended ∷ stop_ended ∷ start_called ∷ []

restarted :
    is_healthy (health_status (happen_all restart (created default_dispatcher_config))) ≡ false
unfolding is_healthy health_status happen_all happen created start stop stopped
restarted = refl

is_healthy-happen_all_example :
    is_healthy (health_status (happen_all restart (created default_dispatcher_config)))
    ≡ (was_started restart && not (was_stopped restart))
is_healthy-happen_all_example = is_healthy-happen_all default_dispatcher_config restart
