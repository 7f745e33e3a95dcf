-- ===== src/App/Services.antt =====
-- examples/app/internal/service: the services, which change their tables and insert the outbox message in one
-- transaction. `json.Marshal` is a parameter.
use o4x.Prelude.{ℕ, none, ◌++◌, Text, codes}
use o4x.Core.Decimal.{decimal}
use o4x.Core.Errors.{Result}
use o4x.Core.Model.{Outbox, OutboxInsertParams}
use o4x.Pgx.Outbox.{insert}
use o4x.App.Store.{
  Order, Notification, User, CreateOrderRequest, SendNotificationRequest, CreateUserRequest,
  UpdateUserRequest, order_status_confirmed,
}
use o4x.App.Events.{
  Drawn, OrderCreatedEvent, OrderConfirmedEvent, NotificationCreated, UserRegisteredEvent,
  UserUpdatedEvent, new_order, new_notification, new_user, order_created_event,
  order_confirmed_event, notification_created, user_registered_event, user_updated_event,
}
use o4x.App.Actions.{
  Action, pure, lift, ◌>>=◌, ◌>>◌, annotate, begin, commit, deferring_rollback, outbox_of,
  with_outbox,
}
use o4x.App.InventoryRepository.{reserve, decrease}
use o4x.App.OrderRepository
use o4x.App.NotificationRepository
use o4x.App.UserRepository

-- `s.outboxRepo.WithTx(tx).Insert`
unfoldable pub insert_message : OutboxInsertParams → Action Outbox
insert_message params db = with_outbox db (insert params (outbox_of db))

abbrev pub message_params : Text → Text → Text → ℕ → OutboxInsertParams
message_params event_type payload key max_attempts = record {
  event_type = event_type;
  payload = payload;
  metadata = none;
  idempotency_key = key;
  max_attempts = max_attempts;
}

-- The transaction around the rest of a service.
abbrev pub in_transaction : {A : Type 0} → Action A → Action A
in_transaction m = do annotate (codes "failed to begin transaction: ") begin; deferring_rollback m

-- Marshal the event, insert it into the outbox, and commit.
abbrev pub publish_and_commit : {A : Type 0} → Result Text → Text → Text → ℕ → A → Action A
publish_and_commit marshalled event_type key max_attempts answer = do
  payload ← annotate (codes "failed to marshal event: ") (lift marshalled)
  annotate (codes "failed to insert outbox message: ")
      (insert_message (message_params event_type payload key max_attempts))
  annotate (codes "failed to commit transaction: ") commit
  pure answer

unfoldable pub create_order :
    (OrderCreatedEvent → Result Text) → Drawn → CreateOrderRequest → Action Order
create_order marshal drawn req = in_transaction do
  annotate (codes "failed to reserve inventory: ") (reserve req.product_id req.quantity)
  let order = new_order drawn req
  annotate (codes "failed to create order: ") (OrderRepository.create order)
  publish_and_commit (marshal (order_created_event order)) (codes "order.created") order.id 5 order

abbrev pub confirmed_key : Text → Text
confirmed_key order_id = codes "order-confirmed-" ++ order_id

unfoldable pub confirm_order : (OrderConfirmedEvent → Result Text) → Text → Action Unit
confirm_order marshal order_id = in_transaction do
  order ← annotate (codes "failed to get order: ") (OrderRepository.get_by_id order_id)
  annotate (codes "failed to update order status: ")
      (OrderRepository.update_status order_id order_status_confirmed)
  annotate (codes "failed to decrease inventory: ") (decrease order.product_id order.quantity)
  publish_and_commit (marshal (order_confirmed_event order_id order)) (codes "order.confirmed")
      (confirmed_key order_id) 5 tt

unfoldable pub send_notification :
    (NotificationCreated → Result Text) → Drawn → SendNotificationRequest → Action Notification
send_notification marshal drawn req = in_transaction do
  let n = new_notification drawn req
  annotate (codes "failed to create notification: ") (NotificationRepository.create n)
  publish_and_commit (marshal (notification_created n)) (codes "notification." ++ n.type_name) n.id
      3 n

unfoldable pub register_user :
    (UserRegisteredEvent → Result Text) → Drawn → CreateUserRequest → Action User
register_user marshal drawn req = in_transaction do
  let user = new_user drawn req
  annotate (codes "failed to create user: ") (UserRepository.create user)
  publish_and_commit (marshal (user_registered_event user)) (codes "user.registered") user.id 5 user

abbrev pub updated_key : Text → ℕ → Text
updated_key user_id unix_nano =
    codes "user-updated-" ++ (user_id ++ (codes "-" ++ decimal unix_nano))

-- `now` and `unix_nano` are the two readings of the clock.
unfoldable pub update_user :
    (UserUpdatedEvent → Result Text) → ℕ → ℕ → Text → UpdateUserRequest → Action Unit
update_user marshal now unix_nano user_id req = in_transaction do
  annotate (codes "failed to update user: ") (UserRepository.update user_id req)
  publish_and_commit (marshal (user_updated_event user_id req now)) (codes "user.updated")
      (updated_key user_id unix_nano) 5 tt
