-- ===== src/Sqs/QueueMap.antt =====
-- contrib/sqs/publisher.go: `EventTypeQueueMap`. The map `routes` is an association list, the newest entry
-- first; the mutex makes each method one step.
use o4x.Prelude.{
  Option, none, some, List, [], ◌∷◌, Text, text_eq, has_prefix, length, ltb, if◌then◌else◌,
}

pub record PrefixRoute : Type 0 where
  pub prefix : Text
  pub queue_url : Text

pub record EventTypeQueueMap : Type 0 where
  pub routes : List (Text × Text)
  pub prefixes : List PrefixRoute
  pub default_queue : Text

unfoldable pub new_event_type_queue_map : Text → EventTypeQueueMap
new_event_type_queue_map default_queue = record {
  routes = [];
  prefixes = [];
  default_queue = default_queue;
}

unfoldable pub register : Text → Text → EventTypeQueueMap → EventTypeQueueMap
register event_type url m = record m { routes = (event_type, url) ∷ m.routes }

-- The first loop of `RegisterPrefix`: the entry of this prefix is taken out.
unfoldable pub without_prefix : Text → List PrefixRoute → List PrefixRoute
without_prefix prefix [] = []
without_prefix prefix (p ∷ ps) =
    let rest = without_prefix prefix ps in if text_eq p.prefix prefix then ps else p ∷ rest

-- The second one: the route goes before the first entry with a shorter prefix.
unfoldable pub insert_route : PrefixRoute → List PrefixRoute → List PrefixRoute
insert_route route [] = route ∷ []
insert_route route (p ∷ ps) =
    let rest = insert_route route ps in
    if ltb (length p.prefix) (length route.prefix) then route ∷ (p ∷ ps) else p ∷ rest

unfoldable pub register_prefix : Text → Text → EventTypeQueueMap → EventTypeQueueMap
register_prefix prefix url m = record m {
  prefixes =
      insert_route (record { prefix = prefix; queue_url = url }) (without_prefix prefix m.prefixes);
}

unfoldable pub route_of : Text → List (Text × Text) → Option Text
route_of event_type [] = none
route_of event_type ((e, url) ∷ routes) =
    let rest = route_of event_type routes in if text_eq e event_type then some url else rest

unfoldable pub first_match : Text → List PrefixRoute → Option Text
first_match event_type [] = none
first_match event_type (p ∷ ps) =
    let rest = first_match event_type ps in
    if has_prefix event_type p.prefix then some p.queue_url else rest

-- The exact match, else the first matching prefix, else the default.
abbrev pub queue_of : Option Text → Option Text → Text → Text
queue_of (some url) prefixed default_queue = url
queue_of none (some url) default_queue = url
queue_of none none default_queue = default_queue

unfoldable pub queue_url : Text → EventTypeQueueMap → Text
queue_url event_type m =
    queue_of (route_of event_type m.routes) (first_match event_type m.prefixes) m.default_queue
