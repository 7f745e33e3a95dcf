-- ===== src/Core/Dispatcher.antt =====
-- core/dispatcher.go and core/health.go: `Start`, `Stop` and `HealthStatus`. The mutex makes the guarded part
-- of each one step. A `Stop` that found the dispatcher running ends with a second step, when its wait for the
-- workers is over. Of the goroutines only their number is kept, the counter of the `sync.WaitGroup`.
use o4x.Prelude.{
  ℕ, ◌+◌, ◌-◌, Bool, true, false, not, ◌&&◌, Option, none, some, List, [], ◌∷◌, ltb, if◌then◌else◌,
}
use o4x.Core.Errors.{GoError, nil, sentinel, already_running}
use o4x.Core.Int64.{ℤ, pos, negsuc, is_positive}
use o4x.Core.DispatcherConfig.{DispatcherConfig}

pub record Dispatcher : Type 0 where
  pub config : DispatcherConfig
  pub workers : ℕ
  pub wait_group : ℕ
  pub running : Bool
  pub pending_shutdown : Bool
  pub last_processed_at : Option ℕ

unfoldable pub created : DispatcherConfig → Dispatcher
created c = record {
  config = c;
  workers = 0;
  wait_group = 0;
  running = false;
  pending_shutdown = false;
  last_processed_at = none;
}

-- How often a loop up to this bound runs.
abbrev pub rounds : ℤ → ℕ
rounds (pos n) = n
rounds (negsuc n) = 0

abbrev requeue_workers : DispatcherConfig → ℕ
requeue_workers c = if is_positive c.requeue_interval then 1 else 0

unfoldable pub start : Dispatcher → Dispatcher × GoError
start d = if d.running then (d, sentinel already_running) else (
  record d {
    running = true;
    workers = d.workers + rounds d.config.worker_count;
    wait_group = d.wait_group + (rounds d.config.worker_count + requeue_workers d.config);
  },
  nil,
)

-- `Stop` up to its wait, and what follows the wait.
unfoldable pub stop : Dispatcher → Dispatcher
stop d = if d.running then record d { pending_shutdown = true; running = false } else d

unfoldable pub stopped : Dispatcher → Dispatcher
stopped d = record d { workers = 0 }

pub record HealthStatus : Type 0 where
  pub running : Bool
  pub last_processed_at : Option ℕ
  pub worker_count : ℤ
  pub pending_shutdown : Bool

unfoldable pub health_status : Dispatcher → HealthStatus
health_status d = record {
  running = d.running;
  last_processed_at = d.last_processed_at;
  worker_count = d.config.worker_count;
  pending_shutdown = d.pending_shutdown;
}

unfoldable pub is_healthy : HealthStatus → Bool
is_healthy h = h.running && not h.pending_shutdown

-- `time.Since` at the time `now`.
unfoldable pub is_stale : HealthStatus → ℕ → ℕ → Bool
is_stale h now max_age = elim (h.last_processed_at) [
  | none ↦ false
  | some at ↦ ltb max_age (now - at)
]

-- What happens to a dispatcher: the calls, the end of a `Stop`, a message processed, a goroutine that ends.
pub data Event : Type 0 where
  start_called stop_called stop_ended goroutine_ended : Event
  message_processed : ℕ → Event

unfoldable pub happen : Event → Dispatcher → Dispatcher
happen start_called d = (start d).0
happen stop_called d = stop d
happen stop_ended d = stopped d
happen goroutine_ended d = record d { wait_group = d.wait_group - 1 }
happen (message_processed now) d = record d { last_processed_at = some now }

unfoldable pub happen_all : List Event → Dispatcher → Dispatcher
happen_all [] d = d
happen_all (e ∷ es) d = happen_all es (happen e d)
