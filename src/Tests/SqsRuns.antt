-- ===== src/Tests/SqsRuns.antt =====
-- contrib/sqs on sample routes and a queue that takes every message.
use mathlib.Core.Path.{refl}
use o4x.Prelude.{◌≡◌, List, [], ◌∷◌, codes, text_eq, has_prefix}
use o4x.Core.Model.{Outbox}
use o4x.Sqs.QueueMap.{
  queue_url, first_match, insert_route, without_prefix, route_of, register, register_prefix,
  new_event_type_queue_map,
}
use o4x.Sqs.Routes.{Registration, exact, by_prefix, registered, apply}
use o4x.Tests.Samples.{order_row}

abbrev routes : List Registration
routes =
    by_prefix (codes "order.") (codes "orders-2")
    ∷ exact (codes "order.audited") (codes "audit")
    ∷ by_prefix (codes "order.refund") (codes "refunds")
    ∷ by_prefix (codes "order.") (codes "orders")
    ∷ []

refunded : queue_url (codes "order.refunded") (registered (codes "rest") routes) ≡ codes "refunds"
unfolding queue_url registered apply register register_prefix new_event_type_queue_map insert_route
    without_prefix route_of first_match text_eq has_prefix
refunded = refl

created : queue_url (codes "order.created") (registered (codes "rest") routes) ≡ codes "orders-2"
unfolding queue_url registered apply register register_prefix new_event_type_queue_map insert_route
    without_prefix route_of first_match text_eq has_prefix
created = refl

abbrev second_row : Outbox
second_row = record order_row { id = 1 ∷ [] }
