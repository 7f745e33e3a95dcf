-- ===== src/App/Handlers.antt =====
-- examples/app/internal/consumer/order_handler.go and user_handler.go: the handlers that process an event in one
-- transaction with their inbox. `json.Unmarshal` is a parameter; `sleepConfig` and the logger are left out.
use o4x.Prelude.{ℕ, Bool, some, List, ◌++◌, Text, codes, text_eq, if◌then◌else◌}
use o4x.Core.Errors.{GoError, nil, external, Result, ok, err}
use o4x.Core.Int64.{ℤ}
use o4x.Pgx.Inbox.{is_processed, complete, InboxDatabase}
use o4x.Consumer.Message.{SqsMessage}
use o4x.App.Store.{
  OrderConfirmation, WelcomeCredit, Tables, AppDatabase, notification_type_email,
  notification_status_sent,
}
use o4x.App.NotificationRepository.{update_status_with_pool}
use o4x.App.Notifications.{NotificationSendEvent}
use o4x.App.Events.{Drawn, OrderConfirmedEvent, NotificationCreated}
use o4x.App.Actions.{
  Action, pure, lift, ◌>>=◌, ◌>>◌, annotate, exec, commit, now_of, inbox_of, with_inbox,
}
use o4x.App.Statements.{fits_int4, insert_unique, if_ok, values_fit}
use o4x.App.Services.{in_transaction, send_notification}

abbrev pub of_error : InboxDatabase × GoError → InboxDatabase × Result (Unit {0})
of_error (db, nil) = (db, ok tt)
of_error (db, e) = (db, err e)

-- `inboxTx.IsProcessed` and `inboxTx.Complete`
unfoldable pub is_processed_here : Text → Text → Action Bool
is_processed_here consumer_name event_id db =
    with_inbox db (is_processed consumer_name event_id (inbox_of db))

unfoldable pub complete_here : Text → Text → Action Unit
complete_here consumer_name event_id db =
    with_inbox db (of_error (complete consumer_name event_id (inbox_of db)))

-- Insert a record and complete the event, in one transaction, unless it is processed.
unfoldable pub process_once :
    Text → Text → Text → (AppDatabase → Tables → Result (Tables × Unit {0})) → Action Unit
process_once consumer_name event_id failure insert_record = in_transaction do
  processed ← annotate (codes "failed to check inbox: ") (is_processed_here consumer_name event_id)
  if processed then pure tt else do
    annotate failure (exec insert_record)
    annotate (codes "failed to mark as completed: ") (complete_here consumer_name event_id)
    annotate (codes "failed to commit transaction: ") commit

abbrev pub is_confirmation : Text → OrderConfirmation → Bool
is_confirmation event_id row = text_eq row.event_id event_id

abbrev pub with_confirmations : Tables → List OrderConfirmation → Tables × Unit {0}
with_confirmations t rows = (record t { order_confirmations = rows }, tt)

abbrev pub confirmation : Text → OrderConfirmedEvent → ℕ → OrderConfirmation
confirmation event_id event now = record {
  event_id = event_id;
  order_id = event.order_id;
  user_id = event.user_id;
  product_id = event.product_id;
  quantity = event.quantity;
  processed_at = now;
}

unfoldable pub insert_confirmation :
    Text → OrderConfirmedEvent → AppDatabase → Tables → Result (Tables × Unit {0})
insert_confirmation event_id event db t =
    values_fit
      (if db.fits (some 255) event.product_id then fits_int4 event.quantity else Bool.false)
      (if_ok (with_confirmations t) (
        insert_unique (is_confirmation event_id) (confirmation event_id event (now_of db))
          t.order_confirmations))

-- `Handle` of `OrderConfirmedHandler`.
unfoldable pub handle_order_confirmed :
    (Text → Result OrderConfirmedEvent) → SqsMessage → Action Unit
handle_order_confirmed unmarshal msg = do
  event ← annotate (codes "failed to unmarshal event: ") (lift (unmarshal msg.body))
  process_once (codes "order") msg.event_id (codes "failed to insert order confirmation: ")
      (insert_confirmation msg.event_id event)

-- `Handle` of `NotificationEmailHandler`: each call commits by itself. `failing` is
-- `h.simulateFailure && rand.Float64() < h.failureRate`.
unfoldable pub handle_notification_email :
    (Text → Result NotificationSendEvent) → Bool → SqsMessage → Action Unit
handle_notification_email unmarshal failing msg = do
  event ← annotate (codes "failed to unmarshal event: ") (lift (unmarshal msg.body))
  processed ←
      annotate (codes "failed to check inbox: ")
        (is_processed_here (codes "notification") msg.event_id)
  if processed
      then pure tt
      else if failing
      then lift (err (external (codes "simulated email sending failure")))
      else do
        annotate (codes "failed to update notification status: ")
            (update_status_with_pool event.notification_id notification_status_sent)
        annotate (codes "failed to mark as completed: ")
            (complete_here (codes "notification") msg.event_id)

-- `UserRegisteredEvent` of the handler.
pub record UserRegistration : Type 0 where
  pub user_id : Text
  pub email : Text
  pub name : Text

abbrev pub is_credit : Text → WelcomeCredit → Bool
is_credit event_id row = text_eq row.event_id event_id

abbrev pub with_credits : Tables → List WelcomeCredit → Tables × Unit {0}
with_credits t rows = (record t { user_welcome_credits = rows }, tt)

abbrev pub credit : Text → UserRegistration → ℕ → WelcomeCredit
credit event_id event now = record {
  event_id = event_id;
  user_id = event.user_id;
  credit_amount = 1000;
  granted_at = now;
}

unfoldable pub insert_credit :
    Text → UserRegistration → AppDatabase → Tables → Result (Tables × Unit {0})
insert_credit event_id event db t =
    if_ok (with_credits t) (
      insert_unique (is_credit event_id) (credit event_id event (now_of db)) t.user_welcome_credits)

-- `Handle` of `UserRegisteredHandler`.
unfoldable pub handle_user_registered : (Text → Result UserRegistration) → SqsMessage → Action Unit
handle_user_registered unmarshal msg = do
  event ← annotate (codes "failed to unmarshal event: ") (lift (unmarshal msg.body))
  process_once (codes "user") msg.event_id (codes "failed to insert welcome credit: ")
      (insert_credit msg.event_id event)

-- `OrderCreatedEvent` of the handler.
pub record OrderCreation : Type 0 where
  pub order_id : Text
  pub user_id : Text
  pub product_id : Text
  pub quantity : ℤ
  pub total_price : ℤ

-- `Handle` of `OrderCreatedHandler`, which has no inbox.
unfoldable pub handle_order_created :
    (Text → Result OrderCreation)
    → (NotificationCreated → Result Text)
    → Drawn
    → SqsMessage
    → Action Unit
handle_order_created unmarshal marshal drawn msg = do
  event ← annotate (codes "failed to unmarshal event: ") (lift (unmarshal msg.body))
  annotate (codes "failed to send notification: ") (
      send_notification marshal drawn (record {
        type_name = notification_type_email;
        recipient = codes "user-" ++ (event.user_id ++ codes "@example.com");
        subject = codes "Order Confirmation";
        body = codes "Your order " ++ (event.order_id ++ codes " has been created successfully.");
      }))
  pure tt

-- `UserUpdatedEvent` of the handler.
pub record UserUpdate : Type 0 where
  pub user_id : Text
  pub name : Text
  pub status : Text

-- `Handle` of `UserUpdatedHandler`, which only logs.
unfoldable pub handle_user_updated : (Text → Result UserUpdate) → SqsMessage → Action Unit
handle_user_updated unmarshal msg = do
  annotate (codes "failed to unmarshal event: ") (lift (unmarshal msg.body))
  pure tt
