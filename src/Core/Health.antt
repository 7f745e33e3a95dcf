-- ===== src/Core/Health.antt =====
-- core/dispatcher.go and core/health.go: what the health status says over the life of a dispatcher.
use o4x.Prelude.{◌≡◌, refl, ap, ◌∙◌, Bool, true, false, not, ◌&&◌, List, [], ◌∷◌, arith}
use o4x.Core.DispatcherConfig.{DispatcherConfig}
use o4x.Core.Dispatcher.{
  Dispatcher, created, start, stop, stopped, health_status, is_healthy, Event, start_called,
  stop_called, stop_ended, goroutine_ended, message_processed, happen, happen_all,
}
use o4x.Core.Switch.{
  Switch, SwitchKind, starts, stops, neither, running_after, pending_after, ends_on, was_ended,
  kinds, on_all, health-on_all,
}

unfoldable pub event_kind : Event → SwitchKind
event_kind start_called = starts
event_kind stop_called = stops
event_kind _ = neither

pub running_law :
    (e : Event) (d : Dispatcher)
    → (happen e d).running ≡ running_after (event_kind e) true d.running
unfolding happen event_kind start stop stopped
running_law start_called d = ground arith
running_law stop_called d = ground arith
running_law stop_ended d = refl
running_law goroutine_ended d = refl
running_law (message_processed now) d = refl

pub pending_law :
    (e : Event) (d : Dispatcher)
    → (happen e d).pending_shutdown ≡ pending_after (event_kind e) d.running d.pending_shutdown
unfolding happen event_kind start stop stopped
pending_law start_called d = ground arith
pending_law stop_called d = ground arith
pending_law stop_ended d = refl
pending_law goroutine_ended d = refl
pending_law (message_processed now) d = refl

unfoldable pub dispatcher_switch : Switch Dispatcher Event
dispatcher_switch = record {
  is_running = λ d. d.running;
  is_pending = λ d. d.pending_shutdown;
  startable = λ d. true;
  on_event = happen;
  kind = event_kind;
  startable_law = λ e d. refl;
  running_law = running_law;
  pending_law = pending_law;
}

-- By the calls alone: whether the last of `Start` and `Stop` was `Start`.
unfoldable pub was_started : List Event → Bool
was_started es = ends_on true false (kinds dispatcher_switch es)

-- By the calls alone: whether some `Stop` came while the dispatcher was started.
unfoldable pub was_stopped : List Event → Bool
was_stopped es = was_ended true false (kinds dispatcher_switch es)

happen_all-on_all :
    (es : List Event) (d : Dispatcher) → happen_all es d ≡ on_all dispatcher_switch es d
unfolding happen_all dispatcher_switch
happen_all-on_all [] d = refl
happen_all-on_all (e ∷ es) d = happen_all-on_all es (happen e d)

-- Whatever happens to a new dispatcher, it is healthy exactly if its last call of `Start` and `Stop` was `Start`,
-- and no `Stop` ever found it running: after a restart it never becomes healthy again.
pub is_healthy-happen_all :
    (c : DispatcherConfig) (es : List Event)
    → is_healthy (health_status (happen_all es (created c)))
      ≡ (was_started es && not (was_stopped es))
unfolding is_healthy health_status was_started was_stopped dispatcher_switch created
is_healthy-happen_all c es =
    ap (λ d. d.running && not d.pending_shutdown) (happen_all-on_all es (created c))
    ∙ health-on_all dispatcher_switch es (created c) refl
