-- ===== src/Consumer/Registry.antt =====
-- contrib/sqs/consumer/registry.go: routers by group.
use o4x.Prelude.{Option, List, [], Text, lookup, put, keys}
use o4x.Consumer.Router.{EventTypeRouter, new_event_type_router}

abbrev pub EventTypeRouterRegistry : Type 0 → Type 0
EventTypeRouterRegistry H = List (Text × EventTypeRouter H)

module _ {H : Type 0} where
  unfoldable pub new_event_type_router_registry : EventTypeRouterRegistry H
  new_event_type_router_registry = []

  unfoldable pub register_group :
      Text
      → (EventTypeRouter H → EventTypeRouter H)
      → EventTypeRouterRegistry H
      → EventTypeRouterRegistry H
  register_group group setup r = put group (setup new_event_type_router) r

  unfoldable pub get_router : Text → EventTypeRouterRegistry H → Option (EventTypeRouter H)
  get_router group r = lookup group r

  unfoldable pub valid_groups : EventTypeRouterRegistry H → List Text
  valid_groups r = keys r
