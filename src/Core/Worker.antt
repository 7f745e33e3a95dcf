-- ===== src/Core/Worker.antt =====
-- core/worker.go: one message at a time. The state is what the repository and the publisher keep, the
-- notes of the hooks, and how often `onMessageProcessed` was called.
use o4x.Prelude.{
  ℕ, zero, suc, ◌+◌, ◌*◌, min, Bool, true, false, not, ◌||◌, Option, List, [], ◌∷◌, ◌++◌,
  if◌then◌else◌,
}
use o4x.Core.Errors.{
  GoError, nil, sentinel, no_message, invalid_status, Result, ok, err, is_nil, is, is_retryable,
  error_text,
}
use o4x.Core.Truncate.{ReplaceAll, truncate_error_message}
use o4x.Core.Model.{Outbox, will_exceed_max_attempts_after_failure}
use o4x.Core.Repository.{OutboxRepository, Publisher}
use o4x.Core.Hooks.{
  Hooks, HookNote, call_on_publish_start, call_on_publish_success, call_on_publish_failure,
  call_on_message_dead,
}

pub record World (S P : Type 0) : Type 0 where
  pub store : S
  pub broker : P
  pub notes : List HookNote
  pub processed : ℕ

-- The fields of `Worker` that its methods read.
pub record Worker (S P : Type 0) : Type 0 where
  pub repo : OutboxRepository S
  pub publisher : Publisher P
  pub hooks : Option Hooks
  pub replace_all : ReplaceAll
  pub poll_interval : ℕ
  pub max_poll_interval : ℕ

-- Where `Run` stands: `currentInterval`, and the intervals for which the timer was reset.
pub record Polling (S P : Type 0) : Type 0 where
  pub world : World S P
  pub current : ℕ
  pub waits : List ℕ

abbrev pub note : {S P : Type 0} → World S P → List HookNote → World S P
note w ns = record w { notes = w.notes ++ ns }

-- An update that found the message in another state is only logged.
abbrev pub settled : GoError → Bool
settled e = is_nil e || is e invalid_status

module _ {S P : Type 0} (worker : Worker S P) where
  abbrev dead_notes : Outbox → GoError → List HookNote
  dead_notes msg e =
      call_on_publish_failure worker.hooks msg e false ++ call_on_message_dead worker.hooks msg e

  unfoldable pub mark_dead : Outbox → GoError → World S P → World S P × GoError
  mark_dead msg e w =
      let message = truncate_error_message worker.replace_all (error_text e) in
      let (store, update_err) = worker.repo.update_to_dead msg.id message w.store in
      let w' = record w { store = store } in
      if settled update_err then (note w' (dead_notes msg e), nil) else (w', update_err)

  unfoldable pub mark_failed : Outbox → GoError → World S P → World S P × GoError
  mark_failed msg e w =
      let message = truncate_error_message worker.replace_all (error_text e) in
      let (store, update_err) = worker.repo.update_to_failed msg.id message w.store in
      let w' = record w { store = store } in
      if settled update_err
      then (note w' (call_on_publish_failure worker.hooks msg e true), nil)
      else (w', update_err)

  unfoldable pub handle_publish_failure : Outbox → GoError → World S P → World S P × GoError
  handle_publish_failure msg e w =
      if not (is_retryable e) || will_exceed_max_attempts_after_failure msg
      then mark_dead msg e w
      else mark_failed msg e w

  unfoldable pub mark_published : Outbox → World S P → World S P × GoError
  mark_published msg w =
      let (store, update_err) = worker.repo.update_to_published msg.id w.store in
      let w' = record w { store = store } in
      if settled update_err
      then (
        record w' {
          notes = w'.notes ++ call_on_publish_success worker.hooks msg;
          processed = w'.processed + 1;
        },
        nil,
      )
      else (w', update_err)

  unfoldable pub publish_one : Outbox → World S P → World S P × GoError
  publish_one msg w =
      let w₁ = note w (call_on_publish_start worker.hooks msg) in
      let (broker, publish_err) = worker.publisher.publish msg w₁.broker in
      let w₂ = record w₁ { broker = broker } in
      if is_nil publish_err
      then mark_published msg w₂
      else handle_publish_failure msg publish_err w₂

  unfoldable pub after_fetch : Result Outbox → World S P → World S P × GoError
  after_fetch (err e) w = (w, (if is e no_message then sentinel no_message else e))
  after_fetch (ok msg) w = publish_one msg w

  unfoldable pub process_one : World S P → World S P × GoError
  process_one w =
      let (store, fetched) = worker.repo.fetch_and_lock_to_publishing w.store in
      after_fetch fetched (record w { store = store })

  -- The interval that `Run` waits next, from the one before and the error of `processOne`: both kinds
  -- of error back off alike.
  unfoldable pub next_interval : ℕ → GoError → ℕ
  next_interval current e =
      if is_nil e then worker.poll_interval else min (current * 2) worker.max_poll_interval

  -- `Run` over so many ticks of its timer before the context is cancelled.
  unfoldable pub run : ℕ → Polling S P → Polling S P
  run zero s = s
  run (suc ticks) s =
      let (world, e) = process_one s.world in
      let wait = next_interval s.current e in
      run ticks (record { world = world; current = wait; waits = s.waits ++ wait ∷ [] })

  -- The loop begins with the base interval.
  unfoldable pub start : World S P → Polling S P
  start w = record { world = w; current = worker.poll_interval; waits = [] }
