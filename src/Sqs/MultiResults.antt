-- ===== src/Sqs/MultiResults.antt =====
-- contrib/sqs/publisher.go: what `PublishBatch` of `MultiBatchPublisher` answers about each message.
use o4x.Prelude.{◌≡◌, List, ◌∷◌, ◌++◌, Text}
use o4x.Core.Model.{Outbox}
use o4x.Core.Repository.{PublishResult}
use o4x.Sqs.Messages.{SqsClient}
use o4x.Sqs.BatchResults.{Says}
use o4x.Sqs.MultiBatch.{publish_groups}
use o4x.Sqs.GroupResults.{queue_answer}

-- The call for the message's own queue, with the client as the calls before it leave it.
abbrev pub Said :
    (router : Text → Text) {Q : Type 0} (client : SqsClient Q) (msgs : List Outbox) (msg : Outbox)
    → List Text
    → Q
    → List PublishResult
    → PublishResult
    → Type 0
Said router client msgs msg schedule q rs r =
    (former : List Text) × (later : List Text) × (schedule
      ≡ former ++ router msg.event_type ∷ later)
    × Says
        (queue_answer router client msgs (router msg.event_type)
          (publish_groups router client former msgs q rs).0)
        msg r
