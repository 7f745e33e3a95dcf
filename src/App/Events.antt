-- ===== src/App/Events.antt =====
-- examples/app/internal/service: the rows and the events that the services make of a request. What `uuid.New` and
-- `time.Now` give is an argument.
use o4x.Prelude.{ℕ, Text}
use o4x.Core.Int64.{ℤ}
use o4x.App.Store.{
  Order, Notification, User, CreateOrderRequest, SendNotificationRequest, CreateUserRequest,
  UpdateUserRequest, order_status_pending, notification_status_pending, user_status_active,
}

-- What `uuid.New` and the two calls of `time.Now` give.
pub record Drawn : Type 0 where
  pub id : Text
  pub created_at : ℕ
  pub updated_at : ℕ

pub record OrderCreatedEvent : Type 0 where
  pub order_id : Text
  pub user_id : Text
  pub product_id : Text
  pub quantity : ℤ
  pub total_price : ℤ
  pub created_at : ℕ

abbrev pub new_order : Drawn → CreateOrderRequest → Order
new_order drawn req = record {
  id = drawn.id;
  user_id = req.user_id;
  product_id = req.product_id;
  quantity = req.quantity;
  total_price = req.total_price;
  status = order_status_pending;
  created_at = drawn.created_at;
  updated_at = drawn.updated_at;
}

abbrev pub order_created_event : Order → OrderCreatedEvent
order_created_event o = record {
  order_id = o.id;
  user_id = o.user_id;
  product_id = o.product_id;
  quantity = o.quantity;
  total_price = o.total_price;
  created_at = o.created_at;
}

pub record OrderConfirmedEvent : Type 0 where
  pub order_id : Text
  pub user_id : Text
  pub product_id : Text
  pub quantity : ℤ

abbrev pub order_confirmed_event : Text → Order → OrderConfirmedEvent
order_confirmed_event order_id o = record {
  order_id = order_id;
  user_id = o.user_id;
  product_id = o.product_id;
  quantity = o.quantity;
}

pub record NotificationCreated : Type 0 where
  pub notification_id : Text
  pub type_name : Text
  pub recipient : Text
  pub subject : Text
  pub body : Text
  pub created_at : ℕ

abbrev pub new_notification : Drawn → SendNotificationRequest → Notification
new_notification drawn req = record {
  id = drawn.id;
  type_name = req.type_name;
  recipient = req.recipient;
  subject = req.subject;
  body = req.body;
  status = notification_status_pending;
  created_at = drawn.created_at;
  updated_at = drawn.updated_at;
}

-- `NotificationSendEvent` of the service.
abbrev pub notification_created : Notification → NotificationCreated
notification_created n = record {
  notification_id = n.id;
  type_name = n.type_name;
  recipient = n.recipient;
  subject = n.subject;
  body = n.body;
  created_at = n.created_at;
}

pub record UserRegisteredEvent : Type 0 where
  pub user_id : Text
  pub email : Text
  pub name : Text
  pub created_at : ℕ

abbrev pub new_user : Drawn → CreateUserRequest → User
new_user drawn req = record {
  id = drawn.id;
  email = req.email;
  name = req.name;
  status = user_status_active;
  created_at = drawn.created_at;
  updated_at = drawn.updated_at;
}

abbrev pub user_registered_event : User → UserRegisteredEvent
user_registered_event u = record {
  user_id = u.id;
  email = u.email;
  name = u.name;
  created_at = u.created_at;
}

pub record UserUpdatedEvent : Type 0 where
  pub user_id : Text
  pub name : Text
  pub status : Text
  pub updated_at : ℕ

abbrev pub user_updated_event : Text → UpdateUserRequest → ℕ → UserUpdatedEvent
user_updated_event user_id req now = record {
  user_id = user_id;
  name = req.name;
  status = req.status;
  updated_at = now;
}
