-- ===== src/Consumer/Settling.antt =====
-- contrib/sqs/consumer/service.go: when a message leaves the queue.
use o4x.Prelude.{
  ◌+◌, ◌≡◌, refl, ap, ◌∙◌, inl, inr, Bool, true, false, not, ◌||◌, [], Text, codes, if◌then◌else◌,
  Bool-cases,
}
use o4x.Core.Errors.{
  GoError, Result, err, is_nil, is_retryable, as_retryable, new_permanent_error, wrapped,
}
use o4x.Core.Int64.{less}
use o4x.Consumer.Message.{RawMessage, SqsMessage}
use o4x.Consumer.Router.{typed_handler, decoded}
use o4x.Consumer.Service.{
  ConsumerWorker, ConsumerWorld, delete_from_queue, exhausted, handle_failure, handle_success,
  receive, announce, run_handler, settle_message, process_message,
}

abbrev undecodable : GoError → GoError
undecodable e = new_permanent_error (wrapped (codes "failed to unmarshal message body: ") e [])

module _ {Q H : Type 0} (s : ConsumerWorker Q H) (raw : RawMessage) (w : ConsumerWorld Q H) where
  abbrev pub message : SqsMessage
  message = receive s raw

  -- What the handler says about the message.
  abbrev pub verdict : GoError
  verdict = (s.handler message w.app).1

  -- The handler has succeeded, or the message has been received no fewer than `MaxAttempts` times.
  abbrev pub leaves : Bool
  leaves = is_nil verdict || not (less message.receive_count s.max_attempts)

  abbrev pub without_message : Q
  without_message = (s.client.delete_message s.input.queue_url message.receipt_handle w.queue).0

  -- `processMessage` calls the handler once; it deletes the message, once, exactly if the handler succeeded or the
  -- message was received at least `MaxAttempts` times, and does nothing else to the queue; and it counts
  -- the message as processed exactly if the handler succeeded, whether or not the deletion did.
  pub process_message-Settles :
      ((process_message s raw w).app ≡ (s.handler message w.app).0)
      × ((process_message s raw w).queue ≡ (if leaves then without_message else w.queue))
      × ((process_message s raw w).processed
          ≡ (if is_nil verdict then w.processed + 1 else w.processed))
  unfolding process_message settle_message run_handler announce handle_success handle_failure
      delete_from_queue
  process_message-Settles = elim (Bool-cases (is_nil verdict)) [
    | inl fine ↦ rw fine (refl, refl, refl)
    | inr failed ↦ elim (Bool-cases (exhausted s message)) [
      | inl last ↦ rw (failed, last) (refl, refl, refl)
      | inr again ↦ rw (failed, again) (refl, refl, refl)
    ]
  ]

  -- A body that the typed handler cannot decode gives an error that is not retryable; the service does not ask, and
  -- leaves the message in the queue until it has been received `MaxAttempts` times.
  pub malformed_stays :
      {T : Type 0} (unmarshal : Text → Result T) (fn : SqsMessage → T → H → H × GoError)
      (e : GoError)
      → s.handler ≡ typed_handler unmarshal fn
      → unmarshal message.body ≡ err e
      → less message.receive_count s.max_attempts ≡ true
      → (is_retryable verdict ≡ false)
        × ((process_message s raw w).queue ≡ w.queue)
        × ((process_message s raw w).app ≡ w.app)
  unfolding new_permanent_error
  malformed_stays unmarshal fn e typed malformed early =
      let said = ap (λ h. h message w.app) typed ∙ undecoded in
      let failed : leaves ≡ false = rw (ap (λ r. is_nil r.1) said, early) refl in
      let (app, queue, _) = process_message-Settles in
      (
        ap (λ r. is_retryable r.1) said ∙ permanent_error,
        queue ∙ ap (λ b. if b then without_message else w.queue) failed,
        app ∙ ap (λ r. r.0) said,
      )
    where
      undecoded : typed_handler unmarshal fn message w.app ≡ (w.app, undecodable e)
      undecoded = unfold typed_handler in ap (λ r. decoded fn r message w.app) malformed

      permanent_error : is_retryable (undecodable e) ≡ false
      permanent_error = unfold is_retryable new_permanent_error as_retryable in refl
