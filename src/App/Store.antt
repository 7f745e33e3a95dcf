-- ===== src/App/Store.antt =====
-- examples/app/internal/domain and examples/app/migrations/002_app_tables.sql: the tables of the example application
-- beside the outbox and the inbox. A string type of the source is its text. The columns `quantity` and
-- `reserved` of `inventory` hold no negative number, by their CHECK constraints.
use o4x.Prelude.{ℕ, Text, codes, List, Option, Bool}
use o4x.Core.Int64.{ℤ}
use o4x.Pgx.Table.{Table}
use o4x.Pgx.Calls.{Call}
use o4x.Pgx.Inbox.{InboxTable}

pub record Order : Type 0 where
  pub id : Text
  pub user_id : Text
  pub product_id : Text
  pub quantity : ℤ
  pub total_price : ℤ
  pub status : Text
  pub created_at : ℕ
  pub updated_at : ℕ

abbrev pub order_status_pending : Text
order_status_pending = codes "pending"

abbrev pub order_status_confirmed : Text
order_status_confirmed = codes "confirmed"

pub record CreateOrderRequest : Type 0 where
  pub user_id : Text
  pub product_id : Text
  pub quantity : ℤ
  pub total_price : ℤ

pub record Inventory : Type 0 where
  pub product_id : Text
  pub quantity : ℕ
  pub reserved : ℕ
  pub updated_at : ℕ

pub record Notification : Type 0 where
  pub id : Text
  pub type_name : Text
  pub recipient : Text
  pub subject : Text
  pub body : Text
  pub status : Text
  pub created_at : ℕ
  pub updated_at : ℕ

abbrev pub notification_type_email : Text
notification_type_email = codes "email"

abbrev pub notification_status_pending : Text
notification_status_pending = codes "pending"

abbrev pub notification_status_sent : Text
notification_status_sent = codes "sent"

pub record SendNotificationRequest : Type 0 where
  pub type_name : Text
  pub recipient : Text
  pub subject : Text
  pub body : Text

pub record User : Type 0 where
  pub id : Text
  pub email : Text
  pub name : Text
  pub status : Text
  pub created_at : ℕ
  pub updated_at : ℕ

abbrev pub user_status_active : Text
user_status_active = codes "active"

pub record CreateUserRequest : Type 0 where
  pub email : Text
  pub name : Text

pub record UpdateUserRequest : Type 0 where
  pub name : Text
  pub status : Text

-- A row of `order_confirmations`.
pub record OrderConfirmation : Type 0 where
  pub event_id : Text
  pub order_id : Text
  pub user_id : Text
  pub product_id : Text
  pub quantity : ℤ
  pub processed_at : ℕ

-- A row of `user_welcome_credits`.
pub record WelcomeCredit : Type 0 where
  pub event_id : Text
  pub user_id : Text
  pub credit_amount : ℕ
  pub granted_at : ℕ

pub record Tables : Type 0 where
  pub orders : List Order
  pub inventory : List Inventory
  pub notifications : List Notification
  pub users : List User
  pub order_confirmations : List OrderConfirmation
  pub user_welcome_credits : List WelcomeCredit
  pub inbox : InboxTable
  pub outbox : Table

-- An open transaction: the tables before it, which the other connections still see, and `NOW()`.
pub record Transaction : Type 0 where
  pub before : Tables
  pub now : ℕ

-- The server, as the transaction that is open on it sees the tables, with the calls that it meets.
-- `fits (some n) s` is whether it takes a text for VARCHAR(n), and `fits none s` for TEXT.
-- The durations are the settings of the outbox repository.
pub record AppDatabase : Type 0 where
  pub tables : Tables
  pub transaction : Option Transaction
  pub calls : ℕ
  pub schedule : ℕ → Call
  pub fits : Option ℕ → Text → Bool
  pub backoff_base : ℕ
  pub backoff_max : ℕ
  pub stuck_publishing_threshold : ℕ
