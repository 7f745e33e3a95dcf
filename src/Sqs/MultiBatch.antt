-- ===== src/Sqs/MultiBatch.antt =====
-- contrib/sqs/publisher.go: `PublishBatch` of `MultiBatchPublisher`. Each group of messages has a goroutine, which writes the
-- results of its own messages only and calls the client once: what the goroutines share is the client. So
-- their interleaving is the order of their calls. The queues are computed from the messages, one goroutine for each;
-- the parameter `arrange` says in which order these come to their calls.
use o4x.Prelude.{
  Bool, false, not, List, [], ◌∷◌, ◌++◌, Text, codes, text_eq, map, select, if◌then◌else◌,
}
use o4x.Core.Errors.{GoError, nil, wrapped, Result, ok, err}
use o4x.Core.Model.{Outbox}
use o4x.Core.Repository.{PublishResult, BatchPublisher}
use o4x.Sqs.Messages.{
  SendMessageBatchRequestEntry, SendMessageBatchOutput, SqsClient, too_large, payload_error,
  publish_routed,
}
use o4x.Sqs.Batch.{entries_of, batch_answered, unless_failed, max_batch_size}

abbrev pub blank : Outbox → PublishResult
blank msg = record { outbox_id = msg.id; message_id = []; success = false; error = nil }

unfoldable pub reject_oversized : Outbox → PublishResult → PublishResult
reject_oversized msg r =
    if too_large msg then record r { success = false; error = payload_error msg } else r

unfoldable pub queue_failed : Text → GoError → PublishResult → PublishResult
queue_failed queue_url e r = record r {
  success = false;
  error = wrapped (codes "sqs batch publish to " ++ (queue_url ++ codes " failed: ")) e [];
}

abbrev pub queue_outcome :
    Text → Result SendMessageBatchOutput → Outbox → PublishResult → PublishResult
queue_outcome queue_url (err e) msg r = queue_failed queue_url e r
queue_outcome queue_url (ok out) msg r = batch_answered out msg r

module _ (router : Text → Text) where
  -- The messages of a queue.
  abbrev pub in_group : Text → Outbox → Bool
  in_group queue_url msg = text_eq (router msg.event_type) queue_url

  -- The keys of `queueGroups`, a map: each queue of a message once.
  unfoldable pub queue_groups : List Outbox → List Text
  queue_groups [] = []
  queue_groups (msg ∷ msgs) =
      router msg.event_type
      ∷ select (λ url. not (text_eq (router msg.event_type) url)) (queue_groups msgs)

  unfoldable pub group_of : Text → List Outbox → List Outbox
  group_of queue_url msgs = select (in_group queue_url) msgs

  -- A loop over the messages of a queue, each with the result at its index.
  unfoldable pub over_group :
      (Outbox → PublishResult → PublishResult)
      → Text
      → List Outbox
      → List PublishResult
      → List PublishResult
  over_group f queue_url (msg ∷ msgs) (r ∷ rs) =
      (if in_group queue_url msg then f msg r else r) ∷ over_group f queue_url msgs rs
  over_group f queue_url msgs rs = rs

  module _ {Q : Type 0} (client : SqsClient Q) where
    abbrev pub send_group :
        Text
        → List Outbox
        → List SendMessageBatchRequestEntry
        → Q
        → List PublishResult
        → Q × List PublishResult
    send_group queue_url msgs [] q rs = (q, rs)
    send_group queue_url msgs (e ∷ es) q rs =
        let (q', answer) = client.send_message_batch queue_url (e ∷ es) q in
        (q', over_group (unless_failed (queue_outcome queue_url answer)) queue_url msgs rs)

    unfoldable pub publish_batch_to_queue_with_lock :
        Text → List Outbox → Q → List PublishResult → Q × List PublishResult
    publish_batch_to_queue_with_lock queue_url msgs q rs =
        send_group queue_url msgs (entries_of queue_url (group_of queue_url msgs)) q
          (over_group reject_oversized queue_url msgs rs)

    unfoldable pub publish_groups :
        List Text → List Outbox → Q → List PublishResult → Q × List PublishResult
    publish_groups [] msgs q rs = (q, rs)
    publish_groups (queue_url ∷ schedule) msgs q rs =
        let (q', rs') = publish_batch_to_queue_with_lock queue_url msgs q rs in
        publish_groups schedule msgs q' rs'

    unfoldable pub publish_batch_routed :
        (List Text → List Text) → List Outbox → Q → Q × List PublishResult
    publish_batch_routed arrange [] q = (q, [])
    publish_batch_routed arrange (msg ∷ msgs) q =
        publish_groups (arrange (queue_groups (msg ∷ msgs))) (msg ∷ msgs) q (map blank (msg ∷ msgs))

    unfoldable pub multi_batch_publisher : (List Text → List Text) → BatchPublisher Q
    multi_batch_publisher arrange = record {
      publisher = record { publish = publish_routed client router };
      publish_batch = publish_batch_routed arrange;
      max_batch_size = max_batch_size;
    }
