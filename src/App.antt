-- ===== src/App.antt =====
-- examples/app: the example application, as far as it shows how the library is meant to be used.
pub mod Store
pub mod Actions
pub mod Statements
pub mod InventoryRepository
pub mod OrderRepository
pub mod NotificationRepository
pub mod UserRepository
pub mod Events
pub mod Services
pub mod Publishing
pub mod Stock
pub mod StockRules
pub mod Outcome
pub mod CreateOrder
pub mod ConfirmOrder
pub mod Effects
pub mod OtherServices
pub mod Requests
pub mod Footprints
pub mod Soundness
pub mod ConfirmedOnce
pub mod Pending
pub mod Balance
pub mod BalanceConfirmed
pub mod Reservations
pub mod Handlers
pub mod InboxRules
pub mod ProcessOnce
pub mod HandledOnce
pub mod Deliveries
pub mod Notifications
pub mod InboxAnswers
pub mod Once
