-- ===== src/Core/BatchWorker.antt =====
-- core/batch_dispatcher.go: one batch at a time. `none` is a panic of the goroutine: a result without a
-- message at its index, or a failure without an error.
use o4x.Prelude.{
  ℕ, zero, suc, ◌+◌, ◌*◌, min, true, false, not, ◌||◌, Option, none, some, List, [], ◌∷◌, ◌++◌, map,
  length, ltb, if◌then◌else◌,
}
use o4x.Core.Errors.{GoError, Result, ok, err, is_nil, is_retryable, error_text}
use o4x.Core.Truncate.{ReplaceAll, truncate_error_message}
use o4x.Core.Model.{Outbox, will_exceed_max_attempts_after_failure}
use o4x.Core.Repository.{BatchOutboxRepository, BatchPublisher, PublishResult}
use o4x.Core.Hooks.{
  Hooks, HookNote, call_on_publish_success, call_on_publish_failure, call_on_message_dead,
  call_on_batch_publish_start, call_on_batch_publish_complete, call_on_partial_batch_success,
}
use o4x.Core.Worker.{World, note}

-- The fields of `BatchDispatcher` and of its configuration that a batch worker reads.
pub record BatchDispatcher (S P : Type 0) : Type 0 where
  pub repo : BatchOutboxRepository S
  pub publisher : BatchPublisher P
  pub hooks : Option Hooks
  pub replace_all : ReplaceAll
  pub batch_size : ℕ
  pub poll_interval : ℕ
  pub max_poll_interval : ℕ

-- The world behind the loop over the results, the messages that were sent, and the count of the others.
abbrev pub Settled : Type 0 → Type 0 → Type 0
Settled S P = World S P × (List Outbox × ℕ)

module _ {S P : Type 0} (d : BatchDispatcher S P) where
  -- Errors of the two updates are only logged.
  unfoldable pub handle_batch_failure : Outbox → GoError → World S P → World S P
  handle_batch_failure msg e w =
      let message = truncate_error_message d.replace_all (error_text e) in
      if not (is_retryable e) || will_exceed_max_attempts_after_failure msg
      then note (record w { store = (d.repo.update_to_dead msg.id message w.store).0 })
          (call_on_publish_failure d.hooks msg e false ++ call_on_message_dead d.hooks msg e)
      else note (record w { store = (d.repo.update_to_failed msg.id message w.store).0 })
          (call_on_publish_failure d.hooks msg e true)

  abbrev pub with_sent : Outbox → Option (Settled S P) → Option (Settled S P)
  with_sent msg none = none
  with_sent msg (some (w, (sent, bad))) = some (w, (msg ∷ sent, bad))

  abbrev pub with_failure : Option (Settled S P) → Option (Settled S P)
  with_failure none = none
  with_failure (some (w, (sent, bad))) = some (w, (sent, suc bad))

  -- The loop over the results.
  unfoldable pub settle : List Outbox → List PublishResult → World S P → Option (Settled S P)
  settle msgs [] w = some (w, ([], 0))
  settle [] (r ∷ rs) w = none
  settle (msg ∷ msgs) (r ∷ rs) w = elim (r.success) [
    | true ↦ with_sent msg (settle msgs rs w)
    | false ↦ elim (is_nil r.error) [
      | true ↦ none
      | false ↦ with_failure (settle msgs rs (handle_batch_failure msg r.error w))
    ]
  ]

  abbrev success_notes : List Outbox → List HookNote
  success_notes [] = []
  success_notes (msg ∷ msgs) = call_on_publish_success d.hooks msg ++ success_notes msgs

  abbrev batch_notes : List Outbox → Result ℕ → List HookNote
  batch_notes sent (err e) = []
  batch_notes sent (ok n) =
      if ltb n (length sent)
      then call_on_partial_batch_success d.hooks (length sent) n
      else success_notes sent

  unfoldable pub mark_batch : List Outbox → World S P → World S P
  mark_batch [] w = w
  mark_batch (msg ∷ sent) w =
      let (store, answer) =
        d.repo.update_batch_to_published (map (λ m. m.id) (msg ∷ sent)) w.store in
      note (record w { store = store }) (batch_notes (msg ∷ sent) answer)

  unfoldable pub finish_batch : Settled S P → World S P
  finish_batch (w, (sent, bad)) =
      let w' = mark_batch sent w in
      record w' {
        notes = w'.notes ++ call_on_batch_publish_complete d.hooks (length sent) bad;
        processed = w'.processed + 1;
      }

  abbrev pub counted : ℕ → Option (Settled S P) → Option (World S P × ℕ)
  counted n none = none
  counted n (some x) = some (finish_batch x, n)

  unfoldable pub publish_messages : List Outbox → World S P → Option (World S P × ℕ)
  publish_messages msgs w =
      let w₁ = note w (call_on_batch_publish_start d.hooks msgs) in
      let (broker, results) = d.publisher.publish_batch msgs w₁.broker in
      counted (length msgs) (settle msgs results (record w₁ { broker = broker }))

  abbrev pub after_batch_fetch : Result (List Outbox) → World S P → Option (World S P × ℕ)
  after_batch_fetch (err e) w = some (w, 0)
  after_batch_fetch (ok []) w = some (w, 0)
  after_batch_fetch (ok (msg ∷ msgs)) w = publish_messages (msg ∷ msgs) w

  unfoldable pub process_batch : World S P → Option (World S P × ℕ)
  process_batch w =
      let (store, fetched) = d.repo.fetch_lock_and_mark_publishing d.batch_size w.store in
      after_batch_fetch fetched (record w { store = store })

  -- The next interval of `runBatchWorker`.
  unfoldable pub next_batch_interval : ℕ → ℕ → ℕ
  next_batch_interval current zero = min (current * 2) d.max_poll_interval
  next_batch_interval current (suc n) = d.poll_interval

  abbrev pub once_more :
      (ℕ → World S P → Option (World S P)) → ℕ → Option (World S P × ℕ) → Option (World S P)
  once_more go current none = none
  once_more go current (some (w, n)) = go (next_batch_interval current n) w

  -- `runBatchWorker` over so many ticks of its timer before the context is cancelled.
  unfoldable pub run_batch_worker : ℕ → ℕ → World S P → Option (World S P)
  run_batch_worker zero current w = some w
  run_batch_worker (suc ticks) current w =
      once_more (λ next w'. run_batch_worker ticks next w') current (process_batch w)
