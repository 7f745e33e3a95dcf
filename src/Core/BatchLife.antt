-- ===== src/Core/BatchLife.antt =====
-- core/batch_dispatcher.go: `Start`, `Stop` and `HealthStatus` of the batch dispatcher, in the steps of
-- Core/Dispatcher.antt.
use o4x.Prelude.{
  ℕ, ◌+◌, ◌-◌, ◌≡◌, refl, Bool, true, false, not, ◌&&◌, Option, none, some, List, if◌then◌else◌,
  arith,
}
use o4x.Core.Errors.{GoError, nil, sentinel, already_running}
use o4x.Core.Int64.{is_positive}
use o4x.Core.BatchConfig.{BatchDispatcherConfig}
use o4x.Core.Dispatcher.{
  HealthStatus, is_healthy, Event, start_called, stop_called, stop_ended, goroutine_ended,
  message_processed, rounds,
}
use o4x.Core.Health.{event_kind}
use o4x.Core.Switch.{
  Switch, running_after, pending_after, ends_on, was_ended, kinds, on_all, health-on_all,
}

pub record BatchState : Type 0 where
  pub config : BatchDispatcherConfig
  pub wait_group : ℕ
  pub running : Bool
  pub pending_shutdown : Bool
  pub last_processed_at : Option ℕ

unfoldable pub created_batch : BatchDispatcherConfig → BatchState
created_batch c = record {
  config = c;
  wait_group = 0;
  running = false;
  pending_shutdown = false;
  last_processed_at = none;
}

abbrev requeuers : BatchDispatcherConfig → ℕ
requeuers c = if is_positive c.requeue_interval then 1 else 0

unfoldable pub start_batch : BatchState → BatchState × GoError
start_batch d = if d.running then (d, sentinel already_running) else (
  record d {
    running = true;
    wait_group = d.wait_group + (rounds d.config.worker_count + requeuers d.config);
  },
  nil,
)

-- What follows the wait of `Stop` changes nothing.
unfoldable pub stop_batch : BatchState → BatchState
stop_batch d = if d.running then record d { pending_shutdown = true; running = false } else d

unfoldable pub batch_health_status : BatchState → HealthStatus
batch_health_status d = record {
  running = d.running;
  last_processed_at = d.last_processed_at;
  worker_count = d.config.worker_count;
  pending_shutdown = d.pending_shutdown;
}

unfoldable pub happen_to_batch : Event → BatchState → BatchState
happen_to_batch start_called d = (start_batch d).0
happen_to_batch stop_called d = stop_batch d
happen_to_batch stop_ended d = d
happen_to_batch goroutine_ended d = record d { wait_group = d.wait_group - 1 }
happen_to_batch (message_processed now) d = record d { last_processed_at = some now }

pub batch_running_law :
    (e : Event) (d : BatchState)
    → (happen_to_batch e d).running ≡ running_after (event_kind e) true d.running
unfolding happen_to_batch event_kind start_batch stop_batch
batch_running_law start_called d = ground arith
batch_running_law stop_called d = ground arith
batch_running_law stop_ended d = refl
batch_running_law goroutine_ended d = refl
batch_running_law (message_processed now) d = refl

pub batch_pending_law :
    (e : Event) (d : BatchState)
    → (happen_to_batch e d).pending_shutdown
      ≡ pending_after (event_kind e) d.running d.pending_shutdown
unfolding happen_to_batch event_kind start_batch stop_batch
batch_pending_law start_called d = ground arith
batch_pending_law stop_called d = ground arith
batch_pending_law stop_ended d = refl
batch_pending_law goroutine_ended d = refl
batch_pending_law (message_processed now) d = refl

unfoldable pub batch_switch : Switch BatchState Event
batch_switch = record {
  is_running = λ d. d.running;
  is_pending = λ d. d.pending_shutdown;
  startable = λ d. true;
  on_event = happen_to_batch;
  kind = event_kind;
  startable_law = λ e d. refl;
  running_law = batch_running_law;
  pending_law = batch_pending_law;
}

-- Whatever happens to a new batch dispatcher, it is healthy exactly if its last call of `Start` and `Stop` was
-- `Start`, and no `Stop` ever found it running.
pub is_healthy-batch :
    (c : BatchDispatcherConfig) (es : List Event)
    → is_healthy (batch_health_status (on_all batch_switch es (created_batch c))) ≡ (
        ends_on true false (kinds batch_switch es)
        && not (was_ended true false (kinds batch_switch es)))
unfolding is_healthy batch_health_status batch_switch created_batch
is_healthy-batch c es = health-on_all batch_switch es (created_batch c) refl
