-- ===== src/Consumer/Service.antt =====
-- contrib/sqs/consumer/service.go: `processMessage`, `handleFailure` and the sequential polling. The client of the
-- SDK is the parameter `ConsumerClient`, the application's handler changes its state `H`.
use o4x.Prelude.{
  ℕ, zero, suc, ◌+◌, Bool, true, false, not, Option, List, [], ◌∷◌, ◌++◌, Text, if◌then◌else◌,
}
use o4x.Core.Int64.{ℤ, less}
use o4x.Core.Errors.{GoError, Result, ok, err, is_nil}
use o4x.Consumer.Message.{RawMessage, Uuid, SqsMessage, parse_sqs_message}
use o4x.Consumer.Hooks.{
  ConsumerHooks, ConsumerNote, call_on_consume_start, call_on_consume_success,
  call_on_consume_failure, call_on_message_dead, call_on_delete_failure,
}
use o4x.Consumer.Router.{Handler}

pub record ReceiveMessageInput : Type 0 where
  pub queue_url : Text
  pub max_number_of_messages : ℤ
  pub wait_time_seconds : ℤ
  pub visibility_timeout : ℤ

pub record ConsumerClient (Q : Type 0) : Type 0 where
  pub receive_message : ReceiveMessageInput → Q → Q × Result (List RawMessage)
  pub delete_message : Text → Text → Q → Q × GoError

-- The fields of `Service` and its configuration that a worker reads, and the answers of `ctx.Err() != nil`
-- in turn.
pub record ConsumerWorker (Q H : Type 0) : Type 0 where
  pub client : ConsumerClient Q
  pub handler : Handler H
  pub input : ReceiveMessageInput
  pub max_attempts : ℤ
  pub hooks : Option ConsumerHooks
  pub parse_uuid : Text → Option Uuid
  pub cancelled : ℕ → Bool

-- The queue, the application, the notes of the hooks, how often `lastProcessedAt` was stored, and how often the
-- context was asked.
pub record ConsumerWorld (Q H : Type 0) : Type 0 where
  pub queue : Q
  pub app : H
  pub notes : List ConsumerNote
  pub processed : ℕ
  pub checks : ℕ

module _ {Q H : Type 0} (s : ConsumerWorker Q H) where
  abbrev noted : List ConsumerNote → ConsumerWorld Q H → ConsumerWorld Q H
  noted ns w = record w { notes = w.notes ++ ns }

  unfoldable pub delete_from_queue : SqsMessage → ConsumerWorld Q H → ConsumerWorld Q H × GoError
  delete_from_queue msg w =
      let (queue, e) = s.client.delete_message s.input.queue_url msg.receipt_handle w.queue in
      (record w { queue = queue }, e)

  abbrev pub exhausted : SqsMessage → Bool
  exhausted msg = not (less msg.receive_count s.max_attempts)

  unfoldable pub handle_failure : SqsMessage → GoError → ConsumerWorld Q H → ConsumerWorld Q H
  handle_failure msg e w =
      if exhausted msg
      then (delete_from_queue msg (noted (call_on_message_dead s.hooks msg e) w)).0
      else noted (call_on_consume_failure s.hooks msg e true) w

  -- A delete that failed is reported, and the message counts as processed all the same.
  unfoldable pub handle_success : SqsMessage → ConsumerWorld Q H → ConsumerWorld Q H
  handle_success msg w =
      let (w', delete_err) = delete_from_queue msg w in
      let reported =
        if is_nil delete_err then [] else call_on_delete_failure s.hooks msg delete_err in
      record w' {
        notes = w'.notes ++ (reported ++ call_on_consume_success s.hooks msg);
        processed = w'.processed + 1;
      }

  -- `processMessage` in its three parts: up to the handler, the handler, and behind it.
  unfoldable pub receive : RawMessage → SqsMessage
  receive raw = parse_sqs_message s.parse_uuid raw

  unfoldable pub announce : SqsMessage → ConsumerWorld Q H → ConsumerWorld Q H
  announce msg w = noted (call_on_consume_start s.hooks msg) w

  unfoldable pub run_handler : SqsMessage → ConsumerWorld Q H → ConsumerWorld Q H × GoError
  run_handler msg w = let (app, e) = s.handler msg w.app in (record w { app = app }, e)

  unfoldable pub settle_message : SqsMessage → GoError → ConsumerWorld Q H → ConsumerWorld Q H
  settle_message msg e w = if is_nil e then handle_success msg w else handle_failure msg e w

  unfoldable pub process_message : RawMessage → ConsumerWorld Q H → ConsumerWorld Q H
  process_message raw w =
      let (w', e) = run_handler (receive raw) (announce (receive raw) w) in
      settle_message (receive raw) e w'

  -- `ctx.Err() != nil`
  abbrev pub checked : ConsumerWorld Q H → ConsumerWorld Q H
  checked w = record w { checks = suc w.checks }

  -- The sequential loop over the messages.
  unfoldable pub process_each : List RawMessage → ConsumerWorld Q H → ConsumerWorld Q H
  process_each [] w = w
  process_each (m ∷ ms) w = elim (s.cancelled w.checks) [
    | true ↦ checked w
    | false ↦ process_each ms (process_message m (checked w))
  ]

  abbrev with_messages : Result (List RawMessage) → ConsumerWorld Q H → ConsumerWorld Q H
  with_messages (err e) w = checked w
  with_messages (ok ms) w = process_each ms w

  -- `pollAndProcess` where `MessageConcurrency` is at most 1.
  unfoldable pub poll_and_process : ConsumerWorld Q H → ConsumerWorld Q H
  poll_and_process w =
      let (queue, output) = s.client.receive_message s.input w.queue in
      if s.cancelled w.checks
      then checked w
      else with_messages output (record (checked w) { queue = queue })

  -- `runWorker` over at most so many rounds.
  unfoldable pub run_consumer : ℕ → ConsumerWorld Q H → ConsumerWorld Q H
  run_consumer zero w = w
  run_consumer (suc rounds) w = elim (s.cancelled w.checks) [
    | true ↦ checked w
    | false ↦ run_consumer rounds (poll_and_process (checked w))
  ]
