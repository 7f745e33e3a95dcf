-- ===== src/Tests/ConsumerRuns.antt =====
-- contrib/sqs/consumer/ on sample messages.
use o4x.Prelude.{
  ℕ, ◌+◌, ◌≤◌, ◌≡◌, refl, false, List, [], ◌∷◌, Text, codes, if◌then◌else◌, arith, lookup, text_eq,
}
use o4x.Core.Errors.{nil, is_nil, is_retryable}
use o4x.Core.Decimal.{atoi}
use o4x.Consumer.Message.{RawMessage, parse_sqs_message, parse_receive_count, parse_event_id}
use o4x.Consumer.Router.{Handler, typed_handler, route}
use o4x.Consumer.Routing.{
  RouterCall, registering, setting_fallback, configured, Goes, route-configured,
}
use o4x.Consumer.Service.{
  receive, process_message, process_each, settle_message, run_handler, announce, handle_success,
  delete_from_queue,
}
use o4x.Consumer.Settling.{
  message, verdict, leaves, without_message, process_message-Settles, malformed_stays,
}
use o4x.Consumer.Pool.{Pool, pool, Steps}
use o4x.Consumer.PoolRuns.{work, count, IsFinished, pool_ends, process_each-Steps}
use o4x.Core.Model.{Outbox}
use o4x.Tests.Samples.{order_row}
use o4x.Tests.ConsumerSamples.{raw_of, worker, two_waiting, unmarshal, counting}

abbrev sent : Outbox
sent = record order_row { id = codes "id-7" }

abbrev received : RawMessage
received = raw_of (codes "a") (codes "{}") (codes "12")

abbrev answering : ℕ → Handler ℕ
answering k msg n = (n + k, nil)

abbrev set_up_calls : List (RouterCall ℕ)
set_up_calls =
    registering (codes "order.created") (answering 2)
    ∷ setting_fallback (answering 9)
    ∷ registering (codes "order.created") (answering 1)
    ∷ []

route-configured_example :
    Goes set_up_calls
      (receive worker received)
      5
      (route (configured set_up_calls) (receive worker received) 5)
route-configured_example = route-configured set_up_calls (receive worker received) 5

-- The message leaves the queue, and the other one stays.
handled : (process_message worker received two_waiting).queue ≡ codes "b" ∷ []
unfolding process_message settle_message run_handler announce handle_success delete_from_queue
    receive parse_sqs_message parse_receive_count parse_event_id typed_handler atoi lookup text_eq
handled = refl

process_message-Settles_example :
    ((process_message worker received two_waiting).app
      ≡ (worker.handler (message worker received two_waiting) 0).0)
    × ((process_message worker received two_waiting).queue ≡ (
        if leaves worker received two_waiting
        then without_message worker received two_waiting
        else two_waiting.queue))
    × ((process_message worker received two_waiting).processed ≡ (
        if is_nil (verdict worker received two_waiting)
        then two_waiting.processed + 1
        else two_waiting.processed))
process_message-Settles_example = process_message-Settles worker received two_waiting

abbrev malformed : RawMessage
malformed = raw_of (codes "a") [] (codes "1")

malformed_stays_example :
    (is_retryable (verdict worker malformed two_waiting) ≡ false)
    × ((process_message worker malformed two_waiting).queue ≡ two_waiting.queue)
    × ((process_message worker malformed two_waiting).app ≡ two_waiting.app)
unfolding receive parse_sqs_message parse_receive_count parse_event_id atoi lookup text_eq
malformed_stays_example =
    malformed_stays worker malformed two_waiting unmarshal counting _ refl refl refl

abbrev batch : List RawMessage
batch = received ∷ raw_of (codes "b") [] (codes "5") ∷ []

process_each-Steps_example :
    Steps worker 2
      (pool worker 2 batch [] two_waiting)
      (pool worker 2 [] [] (process_each worker batch two_waiting))
process_each-Steps_example = process_each-Steps worker 2 batch two_waiting (omega arith)

pool_ends_example :
    (count worker 2 (process_each-Steps worker 2 batch two_waiting (omega arith))
      ≤ work worker 2 (pool worker 2 batch [] two_waiting))
    × ((x : Pool (List Text) ℕ) × Steps worker 2
          (pool worker 2 [] [] (process_each worker batch two_waiting))
          x
        × IsFinished worker 2 x)
pool_ends_example =
    pool_ends worker 2 (pool worker 2 batch [] two_waiting)
      (pool worker 2 [] [] (process_each worker batch two_waiting))
      (process_each-Steps worker 2 batch two_waiting (omega arith)) (omega arith)
