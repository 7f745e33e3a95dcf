-- ===== src/Consumer/Delivery.antt =====
-- contrib/sqs/publisher.go and contrib/sqs/consumer/service.go: what the consumer reads of what the publisher sent.
use o4x.Prelude.{ℕ, ◌≡◌, some, Text, codes, lookup}
use o4x.Core.Decimal.{decimal}
use o4x.Core.Model.{Outbox}
use o4x.Sqs.Messages.{SendMessageInput, build_message_attributes}
use o4x.Consumer.Message.{RawMessage, value_of}

-- What SQS delivers of an input, received for the `count`th time: the body, the message attributes as they were
-- sent, under their names, and the count as a number in decimal digits.
pub record IsDelivery (input : SendMessageInput) (count : ℕ) (m : RawMessage) : Type 0 where
  pub same_body : m.body ≡ some input.message_body
  pub same_attributes :
      (name : Text) → lookup name m.message_attributes ≡ lookup name input.message_attributes
  pub counted : lookup (codes "ApproximateReceiveCount") m.attributes ≡ some (decimal count)

-- The attribute of a name, of the map that was sent.
abbrev sent_value : Text → Outbox → Text
sent_value name msg = value_of (lookup name (build_message_attributes msg))
