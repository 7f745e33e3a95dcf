-- ===== src/Sqs/Batch.antt =====
-- contrib/sqs/publisher.go: `PublishBatch` of `BatchPublisher`.
use o4x.Prelude.{
  ℕ, true, false, not, Option, none, some, List, [], ◌∷◌, ◌++◌, Text, codes, text_eq, map, select,
  if◌then◌else◌,
}
use o4x.Core.Errors.{GoError, nil, external, wrapped, Result, ok, err, is_nil}
use o4x.Core.Model.{Outbox}
use o4x.Core.Repository.{PublishResult, BatchPublisher}
use o4x.Sqs.Messages.{
  SendMessageBatchRequestEntry, SendMessageBatchOutput, SqsClient, too_large, payload_error,
  build_batch_entry, publish,
}

-- The first loop: an oversized message fails at once, any other result is still empty.
unfoldable pub validated : Outbox → PublishResult
validated msg = record {
  outbox_id = msg.id;
  message_id = [];
  success = false;
  error = if too_large msg then payload_error msg else nil;
}

unfoldable pub entries_of : Text → List Outbox → List SendMessageBatchRequestEntry
entries_of queue_url msgs = map (build_batch_entry queue_url) (select (λ m. not (too_large m)) msgs)

-- The maps are filled in the order of the answer, so that the last entry of an id counts.
unfoldable pub last_of {ℓ} : {A : Type ℓ} → Text → List (Text × A) → Option A
last_of j [] = none
last_of j ((i, x) ∷ rest) = elim (last_of j rest) [
  | some y ↦ some y
  | none ↦ if text_eq i j then some x else none
]

unfoldable pub batch_failed : GoError → Outbox → PublishResult → PublishResult
batch_failed e msg r = record r {
  success = false;
  error = wrapped (codes "sqs batch publish failed: ") e [];
}

abbrev entry_error : Text × Text → GoError
entry_error (code, message) =
    external (codes "sqs batch entry failed: code=" ++ (code ++ (codes ", message=" ++ message)))

abbrev pub answered_by : Outbox → Option Text → Option (Text × Text) → PublishResult → PublishResult
answered_by msg (some m) failure r = record r { success = true; message_id = m }
answered_by msg none (some f) r = record r { success = false; error = entry_error f }
answered_by msg none none r = record r {
  success = false;
  error = external (codes "sqs batch: no result for message " ++ msg.id);
}

unfoldable pub batch_answered : SendMessageBatchOutput → Outbox → PublishResult → PublishResult
batch_answered out msg r =
    answered_by msg (last_of {A = Text} msg.id out.successful)
      (last_of {A = Text × Text} msg.id out.failed) r

abbrev pub unless_failed :
    (Outbox → PublishResult → PublishResult) → Outbox → PublishResult → PublishResult
unless_failed f msg r = if is_nil r.error then f msg r else r

-- The loops behind the call, which skip the results that have an error already.
unfoldable pub fill :
    (Outbox → PublishResult → PublishResult) → List Outbox → List PublishResult → List PublishResult
fill f (msg ∷ msgs) (r ∷ rs) = unless_failed f msg r ∷ fill f msgs rs
fill f [] rs = rs
fill f (msg ∷ msgs) [] = []

abbrev pub outcome_of : Result SendMessageBatchOutput → Outbox → PublishResult → PublishResult
outcome_of (err e) = batch_failed e
outcome_of (ok out) = batch_answered out

unfoldable pub max_batch_size : ℕ
max_batch_size = 10

module _ {Q : Type 0} (client : SqsClient Q) (queue_url : Text) where
  abbrev pub send : List Outbox → List SendMessageBatchRequestEntry → Q → Q × List PublishResult
  send msgs [] q = (q, map validated msgs)
  send msgs (e ∷ es) q =
      let (q', answer) = client.send_message_batch queue_url (e ∷ es) q in
      (q', fill (outcome_of answer) msgs (map validated msgs))

  unfoldable pub publish_batch : List Outbox → Q → Q × List PublishResult
  publish_batch [] q = (q, [])
  publish_batch (msg ∷ msgs) q = send (msg ∷ msgs) (entries_of queue_url (msg ∷ msgs)) q

  unfoldable pub sqs_batch_publisher : BatchPublisher Q
  sqs_batch_publisher = record {
    publisher = record { publish = publish client queue_url };
    publish_batch = publish_batch;
    max_batch_size = max_batch_size;
  }
