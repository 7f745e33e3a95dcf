-- ===== src/Consumer/Life.antt =====
-- contrib/sqs/consumer/service.go: `Start`, `Stop`, `HealthStatus` and `IsRunning`, in the steps of
-- Core/Dispatcher.antt. Unlike a dispatcher, a service that runs answers `Start` with nil.
use o4x.Prelude.{
  ℕ, zero, suc, ◌+◌, ◌-◌, ◌≡◌, ◌⊎◌, refl, ap, ◌∙◌, Bool, true, false, not, ◌&&◌, Option, none, some,
  List, [], ◌∷◌, ◌++◌, Text, codes, has_suffix, if◌then◌else◌, arith, Bool-cases, inl, inr,
}
use o4x.Core.Errors.{GoError, nil, external}
use o4x.Core.Int64.{ℤ, pos, negsuc, less}
use o4x.Core.DispatcherConfig.{or_default}
use o4x.Core.Dispatcher.{
  HealthStatus, is_healthy, Event, start_called, stop_called, stop_ended, goroutine_ended,
  message_processed, rounds,
}
use o4x.Core.Health.{event_kind}
use o4x.Core.Switch.{
  Switch, running_after, pending_after, ends_on, was_ended, kinds, on_all, health-on_all,
}
use o4x.Consumer.Config.{ServiceConfig, with_service_defaults}

pub record ServiceState : Type 0 where
  pub config : ServiceConfig
  pub wait_group : ℕ
  pub running : Bool
  pub pending_shutdown : Bool
  pub last_processed_at : Option ℕ

unfoldable pub new_service : ServiceConfig → ServiceState
new_service c = record {
  config = with_service_defaults c;
  wait_group = 0;
  running = false;
  pending_shutdown = false;
  last_processed_at = none;
}

unfoldable pub is_fifo : Text → Bool
is_fifo queue_url = has_suffix queue_url (codes ".fifo")

unfoldable pub breaks_order : ServiceConfig → Bool
breaks_order c = less (pos 1) c.message_concurrency && is_fifo c.queue_url

abbrev pub fifo_error : Text → GoError
fifo_error queue_url = external (
    codes "MessageConcurrency>1 is not compatible with FIFO queues (queue: "
    ++ (queue_url ++ codes "): parallel processing breaks message ordering guarantees"))

unfoldable pub start_service : ServiceState → ServiceState × GoError
start_service s =
    if breaks_order s.config
    then (s, fifo_error s.config.queue_url)
    else (if s.running then (s, nil) else (
      record s { running = true; wait_group = s.wait_group + rounds s.config.worker_count },
      nil,
    ))

-- What follows the wait of `Stop` changes nothing.
unfoldable pub stop_service : ServiceState → ServiceState
stop_service s = if s.running then record s { pending_shutdown = true; running = false } else s

unfoldable pub service_health_status : ServiceState → HealthStatus
service_health_status s = record {
  running = s.running;
  last_processed_at = s.last_processed_at;
  worker_count = s.config.worker_count;
  pending_shutdown = s.pending_shutdown;
}

unfoldable pub happen_to_service : Event → ServiceState → ServiceState
happen_to_service start_called s = (start_service s).0
happen_to_service stop_called s = stop_service s
happen_to_service stop_ended s = s
happen_to_service goroutine_ended s = record s { wait_group = s.wait_group - 1 }
happen_to_service (message_processed now) s = record s { last_processed_at = some now }

pub same_config : (e : Event) (s : ServiceState) → (happen_to_service e s).config ≡ s.config
unfolding happen_to_service start_service stop_service
same_config start_called s = ground arith
same_config stop_called s = ground arith
same_config stop_ended s = refl
same_config goroutine_ended s = refl
same_config (message_processed now) s = refl

pub service_running_law :
    (e : Event) (s : ServiceState)
    → (happen_to_service e s).running
      ≡ running_after (event_kind e) (not (breaks_order s.config)) s.running
unfolding happen_to_service event_kind start_service stop_service
service_running_law start_called s = ground arith
service_running_law stop_called s = ground arith
service_running_law stop_ended s = refl
service_running_law goroutine_ended s = refl
service_running_law (message_processed now) s = refl

pub service_pending_law :
    (e : Event) (s : ServiceState)
    → (happen_to_service e s).pending_shutdown
      ≡ pending_after (event_kind e) s.running s.pending_shutdown
unfolding happen_to_service event_kind start_service stop_service
service_pending_law start_called s = ground arith
service_pending_law stop_called s = ground arith
service_pending_law stop_ended s = refl
service_pending_law goroutine_ended s = refl
service_pending_law (message_processed now) s = refl

unfoldable pub service_switch : Switch ServiceState Event
service_switch = record {
  is_running = λ s. s.running;
  is_pending = λ s. s.pending_shutdown;
  startable = λ s. not (breaks_order s.config);
  on_event = happen_to_service;
  kind = event_kind;
  startable_law = λ e s. ap (λ c. not (breaks_order c)) (same_config e s);
  running_law = service_running_law;
  pending_law = service_pending_law;
}

never_on : (es : List Event) → ends_on false false (kinds service_switch es) ≡ false
unfolding ends_on service_switch event_kind
never_on [] = refl
never_on (start_called ∷ es) = never_on es
never_on (stop_called ∷ es) = never_on es
never_on (stop_ended ∷ es) = never_on es
never_on (goroutine_ended ∷ es) = never_on es
never_on (message_processed now ∷ es) = never_on es

more_than_one : (z : ℤ) → less (pos 1) (or_default z (pos 1)) ≡ less (pos 1) z
unfolding or_default
more_than_one (pos zero) = refl
more_than_one (pos (suc n)) = refl
more_than_one (negsuc n) = refl

breaks_order-with_service_defaults :
    (c : ServiceConfig)
    → breaks_order (with_service_defaults c)
      ≡ (less (pos 1) c.message_concurrency && has_suffix c.queue_url (codes ".fifo"))
unfolding breaks_order with_service_defaults is_fifo
breaks_order-with_service_defaults c =
    ap (λ b. b && has_suffix c.queue_url (codes ".fifo")) (more_than_one c.message_concurrency)

-- Whatever happens to a new service, it is healthy exactly if it is not configured with a `MessageConcurrency`
-- above 1 and a queue URL that ends in ".fifo", its last call of `Start` and `Stop` was `Start`, and no `Stop` ever found it running.
pub is_healthy-service :
    (c : ServiceConfig) (es : List Event)
    → is_healthy (service_health_status (on_all service_switch es (new_service c))) ≡ (
        not (less (pos 1) c.message_concurrency && has_suffix c.queue_url (codes ".fifo"))
        && (ends_on true false (kinds service_switch es)
            && not (was_ended true false (kinds service_switch es))))
unfolding is_healthy service_health_status service_switch new_service
is_healthy-service c es =
    health-on_all service_switch es (new_service c) refl
    ∙ (by (Bool-cases (breaks_order (with_service_defaults c)))
        ∙ ap
            (λ b.
              not b
              && (ends_on true false (kinds service_switch es)
                  && not (was_ended true false (kinds service_switch es))))
            (breaks_order-with_service_defaults c))
  where
    by :
        (breaks_order (with_service_defaults c) ≡ true)
          ⊎ (breaks_order (with_service_defaults c) ≡ false)
        → (ends_on (not (breaks_order (with_service_defaults c))) false (kinds service_switch es)
            && not (
                was_ended
                  (not (breaks_order (with_service_defaults c)))
                  false
                  (kinds service_switch es)))
          ≡ (not (breaks_order (with_service_defaults c))
              && (ends_on true false (kinds service_switch es)
                  && not (was_ended true false (kinds service_switch es))))
    by (inl b) = rw (b, never_on es) refl
    by (inr b) = rw b refl
