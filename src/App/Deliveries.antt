-- ===== src/App/Deliveries.antt =====
-- examples/app/internal/consumer/order_handler.go and user_handler.go over contrib/pgx/inbox_repo.go: an event is
-- recorded once, however often it is delivered.
use o4x.Prelude.{◌≡◌, refl, sym, ap, ◌∙◌, true, none, List, [], ◌∷◌, Text, codes, tally, arith}
use o4x.Core.Errors.{Result, ok, err}
use o4x.Pgx.Inbox.{same_event}
use o4x.Consumer.Message.{SqsMessage}
use o4x.App.Store.{Tables, AppDatabase}
use o4x.App.Events.{OrderConfirmedEvent}
use o4x.App.Actions.{Action, lift, ◌>>=◌, annotate}
use o4x.App.Handlers.{
  UserRegistration, is_confirmation, is_credit, handle_order_confirmed, handle_user_registered,
}
use o4x.App.InboxRules.{known}
use o4x.App.ProcessOnce.{Fresh, Handled, process_once-Handled}
use o4x.App.HandledOnce.{
  IsFaithful, Remembers, Remembers-same, tally_known, known_completed, Confirmed, Credited,
  insert_confirmation-Confirmed, insert_credit-Credited, Confirmed-Remembers, Credited-Remembers,
}

pub data Delivery : Type 0 where
  order_confirmed : SqsMessage → Delivery
  user_registered : SqsMessage → Delivery

-- What one delivery ensures.
record Delivered (name j : Text) (t : Tables) (x : AppDatabase × Result (Unit {0})) : Type 0 where
  closed : x.0.transaction ≡ none
  remembers : Remembers t x.0.tables
  informed : x.1 ≡ ok tt → known name j x.0.tables ≡ true

Handled-Delivered :
    (name j : Text) (before : Tables) (R : Tables → Type 0) (x : AppDatabase × Result (Unit {0}))
    → ((t : Tables) → Fresh name j before R t → Remembers before t)
    → (x.0.transaction ≡ none) × Handled name j before (Fresh name j before R) x.0.tables x.1
    → Delivered name j before x
Handled-Delivered name j before R (db, r) keeps (closed, h) = by h
  where
    by : Handled name j before (Fresh name j before R) db.tables r → Delivered name j before (db, r)
    by (Handled.repeated k e _) = record {
      closed = closed;
      remembers = Remembers-same before db.tables e;
      informed = λ _. ap (known name j) e ∙ k;
    }
    by (Handled.processed f _) = record {
      closed = closed;
      remembers = keeps db.tables f;
      informed = λ _. known_completed name j before R db.tables f;
    }
    by (Handled.not_processed e q same) = record {
      closed = closed;
      remembers = Remembers-same before db.tables same;
      informed = λ k. absurd (cc (sym q ∙ k));
    }
    by (Handled.unanswered e q f) = record {
      closed = closed;
      remembers = keeps db.tables f;
      informed = λ k. absurd (cc (sym q ∙ k));
    }

-- A body that cannot be decoded changes nothing.
decoded-Delivered :
    {E : Type 0} (name j : Text) (r : Result E) (f : E → Action Unit) (db : AppDatabase)
    → db.transaction ≡ none
    → ((event : E) → Delivered name j db.tables (f event db))
    → Delivered name j db.tables
        ((annotate (codes "failed to unmarshal event: ") (lift r) >>= f) db)
unfolding annotate lift ◌>>=◌
decoded-Delivered name j (ok event) f db closed h = h event
decoded-Delivered name j (err e) f db closed h = record {
  closed = closed;
  remembers = Remembers-same db.tables db.tables refl;
  informed = λ k. absurd (cc);
}

module _ (decode_order : Text → Result OrderConfirmedEvent)
    (decode_user : Text → Result UserRegistration) where
  -- One delivery to the handler of its event type.
  unfoldable pub deliver : Delivery → AppDatabase → AppDatabase × Result (Unit {0})
  deliver (order_confirmed msg) db = handle_order_confirmed decode_order msg db
  deliver (user_registered msg) db = handle_user_registered decode_user msg db

  -- The first delivery is the head of the list.
  unfoldable pub deliver_all : List Delivery → AppDatabase → AppDatabase
  deliver_all [] db = db
  deliver_all (d ∷ ds) db = deliver_all ds (deliver d db).0

  handle_order_confirmed-Delivered :
      (msg : SqsMessage) (db : AppDatabase)
      → db.transaction ≡ none
      → Delivered
          (codes "order")
          msg.event_id
          db.tables
          (handle_order_confirmed decode_order msg db)
  unfolding handle_order_confirmed
  handle_order_confirmed-Delivered msg db closed =
      decoded-Delivered _ _ (decode_order msg.body) _ db closed (λ event.
        Handled-Delivered _ _ _ (Confirmed msg.event_id db.tables) _
          (λ t. Confirmed-Remembers db.tables t msg.event_id)
          (process_once-Handled db.schedule _ _ _ _ db.tables _
            (λ d t t' a same.
              insert_confirmation-Confirmed msg.event_id db.tables d t t' a same event)
            db closed refl refl))

  handle_user_registered-Delivered :
      (msg : SqsMessage) (db : AppDatabase)
      → db.transaction ≡ none
      → Delivered (codes "user") msg.event_id db.tables (handle_user_registered decode_user msg db)
  unfolding handle_user_registered
  handle_user_registered-Delivered msg db closed =
      decoded-Delivered _ _ (decode_user msg.body) _ db closed (λ event.
        Handled-Delivered _ _ _ (Credited msg.event_id db.tables) _
          (λ t. Credited-Remembers db.tables t msg.event_id)
          (process_once-Handled db.schedule _ _ _ _ db.tables _
            (λ d t t' a same. insert_credit-Credited msg.event_id db.tables d t t' a same event) db
            closed refl refl))

  deliver_all-Remembers :
      (ds : List Delivery) (db : AppDatabase)
      → db.transaction ≡ none
      → Remembers db.tables (deliver_all ds db).tables
  unfolding deliver_all deliver
  deliver_all-Remembers [] db closed = Remembers-same db.tables db.tables refl
  deliver_all-Remembers (order_confirmed msg ∷ ds) db closed =
      let d = handle_order_confirmed-Delivered msg db closed in
      let rest = deliver_all-Remembers ds (handle_order_confirmed decode_order msg db).0 d.closed in
      record {
        faithful = λ f. rest.faithful (d.remembers.faithful f);
        kept = λ c e k. rest.kept c e (d.remembers.kept c e k);
      }
  deliver_all-Remembers (user_registered msg ∷ ds) db closed =
      let d = handle_user_registered-Delivered msg db closed in
      let rest = deliver_all-Remembers ds (handle_user_registered decode_user msg db).0 d.closed in
      record {
        faithful = λ f. rest.faithful (d.remembers.faithful f);
        kept = λ c e k. rest.kept c e (d.remembers.kept c e k);
      }

  -- In a database without an open transaction whose inbox has one row for an event and whose records of the two handlers are those of
  -- the events in the inbox: after a delivery that `OrderConfirmedHandler` answered with nil, there is exactly
  -- one confirmation for the event, after any further deliveries to the two handlers, in any order, with any message ids, and
  -- whatever calls fail or lose their answers, as long as the inbox is not cleaned up.
  pub confirmed_exactly_once :
      (msg : SqsMessage) (ds : List Delivery) (db : AppDatabase)
      → db.transaction ≡ none
      → IsFaithful db.tables
      → (handle_order_confirmed decode_order msg db).1 ≡ ok tt
      → tally
          (is_confirmation msg.event_id)
          (deliver_all ds (handle_order_confirmed decode_order msg db).0).tables.order_confirmations
        ≡ 1
  confirmed_exactly_once msg ds db closed f done =
      let d = handle_order_confirmed-Delivered msg db closed in
      let db' = (handle_order_confirmed decode_order msg db).0 in
      let rest = deliver_all-Remembers ds db' d.closed in
      let later = rest.faithful (d.remembers.faithful f) in
      let there = rest.kept (codes "order") msg.event_id (d.informed done) in
      omega (
        arith,
        later.confirmations msg.event_id,
        later.unique.once (codes "order") msg.event_id,
        tally_known (same_event (codes "order") msg.event_id) (deliver_all ds db').tables.inbox
            there,
      )

  -- Likewise for the welcome credits of `UserRegisteredHandler`: under the same conditions there is exactly one credit for an event after a
  -- delivery that it answered with nil and any further deliveries.
  pub credited_exactly_once :
      (msg : SqsMessage) (ds : List Delivery) (db : AppDatabase)
      → db.transaction ≡ none
      → IsFaithful db.tables
      → (handle_user_registered decode_user msg db).1 ≡ ok tt
      → tally
          (is_credit msg.event_id)
          (deliver_all ds (handle_user_registered decode_user msg db).0).tables.user_welcome_credits
        ≡ 1
  credited_exactly_once msg ds db closed f done =
      let d = handle_user_registered-Delivered msg db closed in
      let db' = (handle_user_registered decode_user msg db).0 in
      let rest = deliver_all-Remembers ds db' d.closed in
      let later = rest.faithful (d.remembers.faithful f) in
      let there = rest.kept (codes "user") msg.event_id (d.informed done) in
      omega (
        arith,
        later.credits msg.event_id,
        later.unique.once (codes "user") msg.event_id,
        tally_known (same_event (codes "user") msg.event_id) (deliver_all ds db').tables.inbox
            there,
      )
