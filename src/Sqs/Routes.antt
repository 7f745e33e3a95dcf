-- ===== src/Sqs/Routes.antt =====
-- contrib/sqs/publisher.go: which queue an event type goes to, after any registrations.
use o4x.Prelude.{
  ℕ, zero, suc, Option, none, some, List, [], ◌∷◌, Text, text_eq, length, take, if◌then◌else◌,
}
use o4x.Sqs.QueueMap.{
  EventTypeQueueMap, new_event_type_queue_map, register, register_prefix, queue_of,
}

-- A call of `Register` or `RegisterPrefix`.
pub data Registration : Type 0 where
  exact : Text → Text → Registration
  by_prefix : Text → Text → Registration

unfoldable pub apply : Registration → EventTypeQueueMap → EventTypeQueueMap
apply (exact e url) m = register e url m
apply (by_prefix p url) m = register_prefix p url m

-- The map after registrations, of which the list holds the newest first.
unfoldable pub registered : Text → List Registration → EventTypeQueueMap
registered d [] = new_event_type_queue_map d
registered d (r ∷ rs) = apply r (registered d rs)

-- The newest registration of exactly this event type, or of exactly this prefix.
unfoldable pub last_exact : Text → List Registration → Option Text
last_exact e [] = none
last_exact e (exact e' url ∷ rs) =
    let rest = last_exact e rs in if text_eq e' e then some url else rest
last_exact e (by_prefix p url ∷ rs) = last_exact e rs

unfoldable pub last_prefix : List Registration → Text → Option Text
last_prefix [] p = none
last_prefix (exact e url ∷ rs) p = last_prefix rs p
last_prefix (by_prefix p' url ∷ rs) p =
    let rest = last_prefix rs p in if text_eq p' p then some url else rest

abbrev or_else? : Option Text → Option Text → Option Text
or_else? (some u) o = some u
or_else? none o = o

-- The first answer among the beginnings of an event type, from `n` bytes down to none.
unfoldable pub longest : ℕ → Text → (Text → Option Text) → Option Text
longest zero e f = f []
longest (suc n) e f = or_else? (f (take (suc n) e)) (longest n e f)

-- What the documentation promises: the exact match, else the longest registered beginning of the event
-- type, else the default queue; of several registrations of one name the newest counts.
unfoldable pub best_queue : Text → Text → List Registration → Text
best_queue d e rs = queue_of (last_exact e rs) (longest (length e) e (last_prefix rs)) d
