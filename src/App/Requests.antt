-- ===== src/App/Requests.antt =====
-- examples/app: what reaches the database of the application: the requests of the API, in examples/app/internal/service, and
-- the calls that the dispatchers make of the outbox. They come in any order, from any number of processes.
use o4x.Prelude.{ℕ, List, [], ◌∷◌, Text}
use o4x.Core.Errors.{Result}
use o4x.Pgx.Operations.{Operation, perform}
use o4x.App.Store.{
  CreateOrderRequest, SendNotificationRequest, CreateUserRequest, UpdateUserRequest, AppDatabase,
}
use o4x.App.Events.{
  Drawn, OrderCreatedEvent, OrderConfirmedEvent, NotificationCreated, UserRegisteredEvent,
  UserUpdatedEvent,
}
use o4x.App.Actions.{outbox_of}
use o4x.App.Services.{create_order, confirm_order, send_notification, register_user, update_user}

pub data Request : Type 0 where
  creating : Drawn → CreateOrderRequest → Request
  confirming : Text → Request
  sending : Drawn → SendNotificationRequest → Request
  registering : Drawn → CreateUserRequest → Request
  updating : ℕ → ℕ → Text → UpdateUserRequest → Request
  dispatching : Operation → Request

-- `json.Marshal` at the types of the events.
pub record Marshal : Type 0 where
  pub order_created : OrderCreatedEvent → Result Text
  pub order_confirmed : OrderConfirmedEvent → Result Text
  pub notification : NotificationCreated → Result Text
  pub user_registered : UserRegisteredEvent → Result Text
  pub user_updated : UserUpdatedEvent → Result Text

-- A call of the outbox repository of a dispatcher.
unfoldable pub dispatch : Operation → AppDatabase → AppDatabase
dispatch op db =
    let outbox = perform op (outbox_of db) in
    record db { tables = record db.tables { outbox = outbox.table }; calls = outbox.calls }

unfoldable pub serve : Marshal → Request → AppDatabase → AppDatabase
serve marshal (creating drawn req) db = (create_order marshal.order_created drawn req db).0
serve marshal (confirming order_id) db = (confirm_order marshal.order_confirmed order_id db).0
serve marshal (sending drawn req) db = (send_notification marshal.notification drawn req db).0
serve marshal (registering drawn req) db = (register_user marshal.user_registered drawn req db).0
serve marshal (updating now unix_nano user_id req) db =
    (update_user marshal.user_updated now unix_nano user_id req db).0
serve marshal (dispatching op) db = dispatch op db

-- The first request is the head of the list.
unfoldable pub serve_all : Marshal → List Request → AppDatabase → AppDatabase
serve_all marshal [] db = db
serve_all marshal (req ∷ reqs) db = serve_all marshal reqs (serve marshal req db)
