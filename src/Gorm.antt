-- ===== src/Gorm.antt =====
-- contrib/gorm: the repositories on the ORM gorm.
pub mod Orm
pub mod Inbox
pub mod InboxSame
pub mod Queries
pub mod Outbox
pub mod OutboxSame
pub mod Insert
pub mod Json
pub mod Config
