-- ===== src/Tests/ConsumerSamples.antt =====
-- Sample data for contrib/sqs/consumer/: a queue as its receipt handles, a handler that counts, and a message.
use o4x.Prelude.{
  ℕ, suc, false, not, Option, none, some, List, [], ◌∷◌, Text, codes, text_eq, select,
  if◌then◌else◌,
}
use o4x.Core.Int64.{pos}
use o4x.Core.Errors.{GoError, nil, external, Result, ok, err}
use o4x.Consumer.Message.{RawMessage, SqsMessage, Uuid}
use o4x.Sqs.Messages.{string_attribute}
use o4x.Consumer.Router.{typed_handler}
use o4x.Consumer.Service.{ConsumerClient, ConsumerWorker, ConsumerWorld}

-- `uuid.Parse` that reads no text but one.
abbrev pub parse_uuid : Text → Option Uuid
parse_uuid s = if text_eq s (codes "id-7") then some (7 ∷ []) else none

abbrev pub raw_of : Text → Text → Text → RawMessage
raw_of handle body count = record {
  message_id = some (codes "m");
  receipt_handle = some handle;
  body = some body;
  attributes = (codes "ApproximateReceiveCount", count) ∷ [];
  message_attributes =
      (codes "event_type", string_attribute (codes "order.created"))
      ∷ (codes "outbox_id", string_attribute (codes "id-7"))
      ∷ (codes "idempotency_key", string_attribute (codes "order-1"))
      ∷ [];
}

-- A queue that is the list of the receipt handles in it.
abbrev pub client : ConsumerClient (List Text)
client = record {
  receive_message = λ input q. (q, ok []);
  delete_message = λ url handle q. (select (λ s. not (text_eq s handle)) q, nil);
}

-- A body that is empty cannot be decoded.
abbrev pub unmarshal : Text → Result Text
unmarshal [] = err (external (codes "unexpected end of JSON input"))
unmarshal (b ∷ s) = ok (b ∷ s)

abbrev pub counting : SqsMessage → Text → ℕ → ℕ × GoError
counting msg payload n = (suc n, nil)

abbrev pub worker : ConsumerWorker (List Text) ℕ
worker = record {
  client = client;
  handler = typed_handler unmarshal counting;
  input = record {
    queue_url = codes "orders";
    max_number_of_messages = pos 10;
    wait_time_seconds = pos 20;
    visibility_timeout = pos 30;
  };
  max_attempts = pos 5;
  hooks = none;
  parse_uuid = parse_uuid;
  cancelled = λ n. false;
}

abbrev pub two_waiting : ConsumerWorld (List Text) ℕ
two_waiting = record {
  queue = codes "a" ∷ codes "b" ∷ [];
  app = 0;
  notes = [];
  processed = 0;
  checks = 0;
}
