-- ===== src/Consumer/Router.antt =====
-- contrib/sqs/consumer/handler.go: handlers, the router by event type, and the typed handler. A handler changes a
-- state `H` of the application.
use o4x.Prelude.{Option, none, some, List, [], ◌++◌, Text, codes, lookup, put, keys}
use o4x.Core.Errors.{
  GoError, nil, wrapped, sentinel, unknown_event_type, Result, ok, err, new_permanent_error,
}
use o4x.Consumer.Message.{SqsMessage}

abbrev pub Handler : Type 0 → Type 0
Handler H = SqsMessage → H → H × GoError

pub data UnknownEventTypeBehavior : Type 0 where
  unknown_event_type_error unknown_event_type_ignore : UnknownEventTypeBehavior

pub record EventTypeRouter (H : Type 0) : Type 0 where
  pub handlers : List (Text × Handler H)
  pub fallback : Option (Handler H)
  pub unknown_event_type_behavior : UnknownEventTypeBehavior

module _ {H : Type 0} where
  unfoldable pub new_event_type_router : EventTypeRouter H
  new_event_type_router = record {
    handlers = [];
    fallback = none;
    unknown_event_type_behavior = unknown_event_type_error;
  }

  -- `Register`, and `RegisterFunc` with a function.
  unfoldable pub register_handler : Text → Handler H → EventTypeRouter H → EventTypeRouter H
  register_handler event_type handler r = record r { handlers = put event_type handler r.handlers }

  unfoldable pub set_fallback : Handler H → EventTypeRouter H → EventTypeRouter H
  set_fallback handler r = record r { fallback = some handler }

  unfoldable pub set_unknown_event_type_behavior :
      UnknownEventTypeBehavior → EventTypeRouter H → EventTypeRouter H
  set_unknown_event_type_behavior behavior r = record r { unknown_event_type_behavior = behavior }

  unfoldable pub event_types : EventTypeRouter H → List Text
  event_types r = keys r.handlers

  -- With no handler and no fallback.
  abbrev pub unknown : UnknownEventTypeBehavior → Handler H
  unknown unknown_event_type_ignore msg h = (h, nil)
  unknown unknown_event_type_error msg h =
      (h, wrapped [] (sentinel unknown_event_type) (codes ": " ++ msg.event_type))

  abbrev pub chosen : Option (Handler H) → Option (Handler H) → UnknownEventTypeBehavior → Handler H
  chosen (some handler) fallback behavior = handler
  chosen none (some handler) behavior = handler
  chosen none none behavior = unknown behavior

  -- `Handle` of the router.
  unfoldable pub route : EventTypeRouter H → Handler H
  route r msg h =
      chosen (lookup msg.event_type r.handlers) r.fallback r.unknown_event_type_behavior msg h

  abbrev pub decoded : {T : Type 0} → (SqsMessage → T → H → H × GoError) → Result T → Handler H
  decoded fn (err e) msg h =
      (h, new_permanent_error (wrapped (codes "failed to unmarshal message body: ") e []))
  decoded fn (ok payload) msg h = fn msg payload h

  -- `Handle` of `TypedHandler`, with `json.Unmarshal` of the standard library at the type `T`.
  unfoldable pub typed_handler :
      {T : Type 0} → (Text → Result T) → (SqsMessage → T → H → H × GoError) → Handler H
  typed_handler unmarshal fn msg h = decoded fn (unmarshal msg.body) msg h
