-- ===== src/Consumer/Message.antt =====
-- contrib/sqs/consumer/model.go, and `parseSQSMessage` of contrib/sqs/consumer/service.go. A `*string` of the SDK
-- is an `Option`. `uuid.Parse` is the parameter `parse_uuid`; a UUID is its 16 bytes.
use o4x.Prelude.{Option, none, some, List, [], ◌∷◌, Text, codes, lookup, replicate}
use o4x.Core.Int64.{ℤ, pos}
use o4x.Core.Decimal.{atoi}
use o4x.Sqs.Messages.{MessageAttributeValue, MessageAttributes}

-- `sqstypes.Message`, as far as it is read.
pub record RawMessage : Type 0 where
  pub message_id : Option Text
  pub receipt_handle : Option Text
  pub body : Option Text
  pub attributes : List (Text × Text)
  pub message_attributes : MessageAttributes

abbrev pub Uuid : Type 0
Uuid = Text

-- `uuid.Nil`, the zero value of the type.
abbrev pub uuid_nil : Uuid
uuid_nil = replicate 16 0

pub record SqsMessage : Type 0 where
  pub message_id : Text
  pub receipt_handle : Text
  pub body : Text
  pub event_type : Text
  pub event_id : Uuid
  pub idempotency_key : Text
  pub metadata : Option Text
  pub receive_count : ℤ

-- `aws.ToString`
abbrev pub to_string : Option Text → Text
to_string none = []
to_string (some s) = s

-- The attribute of a name, where a missing entry and a nil value are the empty string.
abbrev pub value_of : Option MessageAttributeValue → Text
value_of none = []
value_of (some v) = to_string v.string_value

abbrev pub attribute : Text → RawMessage → Text
attribute name m = value_of (lookup name m.message_attributes)

-- What cannot be read leaves the zero value in its place.
abbrev pub count_or_zero : Option ℤ → ℤ
count_or_zero none = pos 0
count_or_zero (some n) = n

abbrev pub count_of : Option Text → ℤ
count_of none = pos 0
count_of (some count) = count_or_zero (atoi count)

unfoldable pub parse_receive_count : RawMessage → ℤ
parse_receive_count m = count_of (lookup (codes "ApproximateReceiveCount") m.attributes)

abbrev id_or_nil : Option Uuid → Uuid
id_or_nil none = uuid_nil
id_or_nil (some u) = u

unfoldable pub parse_event_id : (Text → Option Uuid) → Text → Uuid
parse_event_id parse_uuid [] = uuid_nil
parse_event_id parse_uuid (b ∷ s) = id_or_nil (parse_uuid (b ∷ s))

abbrev pub unless_empty : Text → Option Text
unless_empty [] = none
unless_empty (b ∷ s) = some (b ∷ s)

unfoldable pub parse_sqs_message : (Text → Option Uuid) → RawMessage → SqsMessage
parse_sqs_message parse_uuid m = record {
  message_id = to_string m.message_id;
  receipt_handle = to_string m.receipt_handle;
  body = to_string m.body;
  event_type = attribute (codes "event_type") m;
  event_id = parse_event_id parse_uuid (attribute (codes "outbox_id") m);
  idempotency_key = attribute (codes "idempotency_key") m;
  metadata = unless_empty (attribute (codes "metadata") m);
  receive_count = parse_receive_count m;
}
