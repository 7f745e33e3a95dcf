-- ===== src/Sqs/Messages.antt =====
-- contrib/sqs/publisher.go: what is sent to a queue, and the publishers of single messages. The client of
-- the AWS SDK is the parameter `SqsClient`: each of its calls changes a state `Q` and answers.
use o4x.Prelude.{
  ℕ, ◌*◌, Bool, Option, none, some, List, [], ◌∷◌, ◌++◌, Text, codes, has_suffix, length, ltb, put,
  if◌then◌else◌,
}
use o4x.Core.Decimal.{decimal}
use o4x.Core.Errors.{
  GoError, nil, wrapped, sentinel, payload_too_large, Result, is_nil, new_permanent_error,
}
use o4x.Core.Model.{Outbox}

-- `sqstypes.MessageAttributeValue`, and the maps of these; a `*string` is an `Option`.
pub record MessageAttributeValue : Type 0 where
  pub data_type : Option Text
  pub string_value : Option Text

abbrev pub MessageAttributes : Type 0
MessageAttributes = List (Text × MessageAttributeValue)

pub record SendMessageInput : Type 0 where
  pub queue_url : Text
  pub message_body : Text
  pub message_attributes : MessageAttributes
  pub message_group_id : Option Text
  pub message_deduplication_id : Option Text

pub record SendMessageBatchRequestEntry : Type 0 where
  pub id : Text
  pub message_body : Text
  pub message_attributes : MessageAttributes
  pub message_group_id : Option Text
  pub message_deduplication_id : Option Text

-- The entries of an answer: an id with the id of the message, or with a code and a text.
pub record SendMessageBatchOutput : Type 0 where
  pub successful : List (Text × Text)
  pub failed : List (Text × (Text × Text))

pub record SqsClient (Q : Type 0) : Type 0 where
  pub send_message : SendMessageInput → Q → Q × GoError
  pub send_message_batch :
      Text → List SendMessageBatchRequestEntry → Q → Q × Result SendMessageBatchOutput

abbrev pub max_sqs_message_size : ℕ
max_sqs_message_size = 256 * 1024

unfoldable pub too_large : Outbox → Bool
too_large msg = ltb max_sqs_message_size (length msg.payload)

unfoldable pub payload_error : Outbox → GoError
unfolding new_permanent_error decimal
payload_error msg = new_permanent_error (
    wrapped [] (sentinel payload_too_large) (
      codes ": payload size "
      ++ (decimal (length msg.payload)
          ++ (codes " bytes exceeds SQS limit of "
              ++ (decimal max_sqs_message_size ++ codes " bytes")))))

-- `len(msg.Metadata) > 0`
abbrev pub metadata_attribute : Option Text → Option Text
metadata_attribute none = none
metadata_attribute (some []) = none
metadata_attribute (some (b ∷ m)) = some (b ∷ m)

abbrev pub string_attribute : Text → MessageAttributeValue
string_attribute s = record { data_type = some (codes "String"); string_value = some s }

abbrev pub with_metadata : Option Text → MessageAttributes → MessageAttributes
with_metadata none attrs = attrs
with_metadata (some m) attrs = put (codes "metadata") (string_attribute m) attrs

unfoldable pub build_message_attributes : Outbox → MessageAttributes
build_message_attributes msg = with_metadata (metadata_attribute msg.metadata) (
    (codes "event_type", string_attribute msg.event_type)
    ∷ (codes "outbox_id", string_attribute msg.id)
    ∷ (codes "idempotency_key", string_attribute msg.idempotency_key)
    ∷ [])

unfoldable pub is_fifo_queue : Text → Bool
unfolding has_suffix
is_fifo_queue queue_url = has_suffix queue_url (codes ".fifo")

abbrev only_fifo : Text → Text → Option Text
only_fifo queue_url t = if is_fifo_queue queue_url then some t else none

unfoldable pub build_send_message_input : Text → Outbox → SendMessageInput
build_send_message_input queue_url msg = record {
  queue_url = queue_url;
  message_body = msg.payload;
  message_attributes = build_message_attributes msg;
  message_group_id = only_fifo queue_url msg.event_type;
  message_deduplication_id = only_fifo queue_url msg.idempotency_key;
}

unfoldable pub build_batch_entry : Text → Outbox → SendMessageBatchRequestEntry
build_batch_entry queue_url msg = record {
  id = msg.id;
  message_body = msg.payload;
  message_attributes = build_message_attributes msg;
  message_group_id = only_fifo queue_url msg.event_type;
  message_deduplication_id = only_fifo queue_url msg.idempotency_key;
}

module _ {Q : Type 0} (client : SqsClient Q) where
  -- `Publish` of `Publisher` and of `BatchPublisher`.
  unfoldable pub publish : Text → Outbox → Q → Q × GoError
  publish queue_url msg q =
      if too_large msg
      then (q, payload_error msg)
      else (let (q', e) = client.send_message (build_send_message_input queue_url msg) q in
          (q', (if is_nil e then nil else wrapped (codes "sqs publish failed: ") e [])))

  -- `Publish` of `MultiQueuePublisher` and of `MultiBatchPublisher`, with `QueueURL` of the router.
  unfoldable pub publish_routed : (Text → Text) → Outbox → Q → Q × GoError
  publish_routed router msg q =
      if too_large msg
      then (q, payload_error msg)
      else (let url = router msg.event_type in
          let (q', e) = client.send_message (build_send_message_input url msg) q in
          (
            q',
            (if is_nil e
                then nil
                else wrapped (codes "sqs publish to " ++ (url ++ codes " failed: ")) e []),
          ))
