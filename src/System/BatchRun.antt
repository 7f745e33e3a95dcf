-- ===== src/System/BatchRun.antt =====
-- core/batch_dispatcher.go with `BatchPublisher` of contrib/sqs/publisher.go, over any repository.
use mathlib.Core.Path.{subst}
use o4x.Prelude.{
  ℕ, zero, suc, ◌+◌, ◌≡◌, refl, sym, ap, ◌∙◌, ◌⊎◌, inl, inr, true, false, Option, some, List, [],
  ◌∷◌, ◌++◌, Text, map, length, get_elem?, arith,
}
use o4x.Core.Errors.{Result, ok, err, is_nil}
use o4x.Core.Model.{Outbox}
use o4x.Core.Repository.{PublishResult}
use o4x.Core.Hooks.{HookNote, call_on_batch_publish_start, call_on_batch_publish_complete}
use o4x.Core.Worker.{World, note}
use o4x.Core.BatchWorker.{
  BatchDispatcher, settle, mark_batch, finish_batch, handle_batch_failure, publish_messages,
  process_batch, run_batch_worker, next_batch_interval, after_batch_fetch,
}
use o4x.Sqs.Messages.{SqsClient, SendMessageBatchOutput, SendMessageBatchRequestEntry, too_large}
use o4x.Sqs.Batch.{
  validated, fill, outcome_of, send, entries_of, publish_batch, sqs_batch_publisher, unless_failed,
}
use o4x.Sqs.BatchResults.{
  Says, oversized, delivered, undelivered, unless_failed-Says, is_nil-payload_error,
  validated-large, entries_of-empty,
}

-- One result for each message, and each is a success or has an error.
abbrev Answers : List Outbox → List PublishResult → Type 0
Answers [] [] = Unit
Answers (m ∷ msgs) (r ∷ rs) =
    ((r.success ≡ true) ⊎ ((r.success ≡ false) × (is_nil r.error ≡ false))) × Answers msgs rs
Answers _ _ = ⊥

Says-verdict :
    (a : Result SendMessageBatchOutput) (msg : Outbox) (r : PublishResult)
    → Says a msg r
    → (r.success ≡ true) ⊎ ((r.success ≡ false) × (is_nil r.error ≡ false))
Says-verdict a msg r (oversized large bad e) = inr (bad, ap is_nil e ∙ is_nil-payload_error msg)
Says-verdict a msg r (delivered fits good e c) = inl good
Says-verdict a msg r (undelivered fits bad e _) = inr (bad, e)

fill-Answers :
    (a : Result SendMessageBatchOutput) (msgs : List Outbox)
    → Answers msgs (fill (outcome_of a) msgs (map validated msgs))
unfolding fill
fill-Answers a [] = tt
fill-Answers a (m ∷ msgs) = (
  Says-verdict a m (unless_failed (outcome_of a) m (validated m)) (unless_failed-Says a m).1,
  fill-Answers a msgs,
)

validated-Answers :
    (msgs : List Outbox)
    → ((i : ℕ) (msg : Outbox) → get_elem? msgs i ≡ some msg → too_large msg ≡ true)
    → Answers msgs (map validated msgs)
unfolding validated
validated-Answers [] large = tt
validated-Answers (m ∷ msgs) large = (
  inr (refl, ap is_nil (validated-large m (large 0 m refl)) ∙ is_nil-payload_error m),
  validated-Answers msgs (λ i msg h. large (suc i) msg h),
)

publish_batch-Answers :
    {Q : Type 0} (client : SqsClient Q) (queue_url : Text) (msgs : List Outbox) (q : Q)
    → Answers msgs (publish_batch client queue_url msgs q).1
unfolding publish_batch
publish_batch-Answers client queue_url [] q = tt
publish_batch-Answers client queue_url (m ∷ msgs) q = sent (entries_of queue_url (m ∷ msgs)) refl
  where
    sent :
        (es : List SendMessageBatchRequestEntry)
        → entries_of queue_url (m ∷ msgs) ≡ es
        → Answers (m ∷ msgs) (send client queue_url (m ∷ msgs) es q).1
    sent [] e =
        validated-Answers (m ∷ msgs) (λ i msg h. entries_of-empty queue_url (m ∷ msgs) i msg e h)
    sent (x ∷ es) e = fill-Answers (client.send_message_batch queue_url (x ∷ es) q).1 (m ∷ msgs)

module _ {S P : Type 0} (d : BatchDispatcher S P) where
  -- With an answer for each message the loop comes to its end and counts each message once.
  settle-Answers :
      (msgs : List Outbox) (rs : List PublishResult) (w : World S P)
      → Answers msgs rs
      → (w' : World S P) × (sent : List Outbox) × (bad : ℕ) × (settle d msgs rs w
          ≡ some (w', (sent, bad)))
        × (length sent + bad ≡ length msgs)
  unfolding settle
  settle-Answers [] [] w h = (w, [], 0, refl, refl)
  settle-Answers [] (r ∷ rs) w h = absurd (h)
  settle-Answers (m ∷ msgs) [] w h = absurd (h)
  settle-Answers (m ∷ msgs) (r ∷ rs) w (inl good, h) =
      let (w', sent, bad, e, count) = settle-Answers msgs rs w h in
      (w', m ∷ sent, bad, rw (good, e) refl, omega (arith, count))
  settle-Answers (m ∷ msgs) (r ∷ rs) w (inr (failed, error), h) =
      let (w', sent, bad, e, count) =
        settle-Answers msgs rs (handle_batch_failure d m r.error w) h in
      (w', sent, suc bad, rw (failed, error, e) refl, omega (arith, count))

module _ {S Q : Type 0} (d : BatchDispatcher S Q) (client : SqsClient Q) (queue_url : Text)
    (sqs : d.publisher ≡ sqs_batch_publisher client queue_url) where
  results-Answers : (msgs : List Outbox) (q : Q) → Answers msgs (d.publisher.publish_batch msgs q).1
  results-Answers msgs q =
      subst (λ p. Answers msgs (p.publish_batch msgs q).1) (sym sqs)
        (unfold sqs_batch_publisher in publish_batch-Answers client queue_url msgs q)

  -- The world behind a batch, which reports each message as sent or as failed.
  abbrev pub Reported : ℕ → Option (World S Q × ℕ) → Type 0
  Reported n out =
      (w' : World S Q) × (before : List HookNote) × (sent bad : ℕ) × (out ≡ some (w', n))
      × (w'.notes ≡ before ++ call_on_batch_publish_complete d.hooks sent bad)
      × (sent + bad ≡ n)

  publish_messages-Reported :
      (msgs : List Outbox) (w : World S Q) → Reported (length msgs) (publish_messages d msgs w)
  unfolding publish_messages finish_batch
  publish_messages-Reported msgs w =
      let w₁ = note w (call_on_batch_publish_start d.hooks msgs) in
      let (q, results) = d.publisher.publish_batch msgs w₁.broker in
      let (w', sent, bad, e, count) =
        settle-Answers d msgs results (record w₁ { broker = q }) (results-Answers msgs w₁.broker) in
      (
        finish_batch d (w', (sent, bad)),
        (mark_batch d sent w').notes,
        length sent,
        bad,
        rw e refl,
        refl,
        count,
      )

  process_batch-ends :
      (w : World S Q) → (w' : World S Q) × (n : ℕ) × (process_batch d w ≡ some (w', n))
  unfolding process_batch
  process_batch-ends w =
      go (d.repo.fetch_lock_and_mark_publishing d.batch_size w.store).1
        (record w { store = (d.repo.fetch_lock_and_mark_publishing d.batch_size w.store).0 })
    where
      go :
          (r : Result (List Outbox)) (x : World S Q)
          → (w' : World S Q) × (n : ℕ) × (after_batch_fetch d r x ≡ some (w', n))
      go (err e) x = (x, 0, refl)
      go (ok []) x = (x, 0, refl)
      go (ok (m ∷ msgs)) x =
          let (w', _, _, _, e, _, _) = publish_messages-Reported (m ∷ msgs) x in
          (w', length (m ∷ msgs), e)

  -- A batch worker with the SQS publisher runs for any number of ticks without a panic, whatever the
  -- repository and the server answer.
  pub run_batch_worker_ends :
      (ticks current : ℕ) (w : World S Q)
      → (w' : World S Q) × (run_batch_worker d ticks current w ≡ some w')
  unfolding run_batch_worker
  run_batch_worker_ends zero current w = (w, refl)
  run_batch_worker_ends (suc ticks) current w =
      let (x, n, e) = process_batch-ends w in
      let (w', e') = run_batch_worker_ends ticks (next_batch_interval d current n) x in
      (w', rw e e')
