-- ===== src/Consumer/Hooks.antt =====
-- contrib/sqs/consumer/hooks.go: the callbacks of the consumer service. As in Core/Hooks.antt, a callback is
-- modelled by whether it panics, and a call leaves a note. Durations are left out.
use o4x.Prelude.{Bool, Option, none, some, List, [], ◌∷◌, if◌then◌else◌}
use o4x.Core.Errors.{GoError}
use o4x.Consumer.Message.{SqsMessage}

pub data ConsumerCall : Type 0 where
  consume_start consume_success : SqsMessage → ConsumerCall
  consume_failure : SqsMessage → GoError → Bool → ConsumerCall
  message_dead delete_failure : SqsMessage → GoError → ConsumerCall

pub data ConsumerNote : Type 0 where
  ran recovered : ConsumerCall → ConsumerNote

pub record ConsumerHooks : Type 0 where
  pub on_consume_start : Option (SqsMessage → Bool)
  pub on_consume_success : Option (SqsMessage → Bool)
  pub on_consume_failure : Option (SqsMessage → GoError → Bool → Bool)
  pub on_message_dead : Option (SqsMessage → GoError → Bool)
  pub on_delete_failure : Option (SqsMessage → GoError → Bool)

-- The deferred `recover` around a callback.
abbrev guarded_call : Bool → ConsumerCall → List ConsumerNote
guarded_call panics c = if panics then recovered c ∷ [] else ran c ∷ []

unfoldable pub call_on_consume_start : Option ConsumerHooks → SqsMessage → List ConsumerNote
call_on_consume_start none msg = []
call_on_consume_start (some h) msg = elim (h.on_consume_start) [
  | none ↦ []
  | some f ↦ guarded_call (f msg) (consume_start msg)
]

unfoldable pub call_on_consume_success : Option ConsumerHooks → SqsMessage → List ConsumerNote
call_on_consume_success none msg = []
call_on_consume_success (some h) msg = elim (h.on_consume_success) [
  | none ↦ []
  | some f ↦ guarded_call (f msg) (consume_success msg)
]

unfoldable pub call_on_consume_failure :
    Option ConsumerHooks → SqsMessage → GoError → Bool → List ConsumerNote
call_on_consume_failure none msg e retryable = []
call_on_consume_failure (some h) msg e retryable = elim (h.on_consume_failure) [
  | none ↦ []
  | some f ↦ guarded_call (f msg e retryable) (consume_failure msg e retryable)
]

unfoldable pub call_on_message_dead :
    Option ConsumerHooks → SqsMessage → GoError → List ConsumerNote
call_on_message_dead none msg e = []
call_on_message_dead (some h) msg e = elim (h.on_message_dead) [
  | none ↦ []
  | some f ↦ guarded_call (f msg e) (message_dead msg e)
]

unfoldable pub call_on_delete_failure :
    Option ConsumerHooks → SqsMessage → GoError → List ConsumerNote
call_on_delete_failure none msg e = []
call_on_delete_failure (some h) msg e = elim (h.on_delete_failure) [
  | none ↦ []
  | some f ↦ guarded_call (f msg e) (delete_failure msg e)
]
