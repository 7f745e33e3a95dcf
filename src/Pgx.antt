-- ===== src/Pgx.antt =====
-- contrib/pgx: the repositories on PostgreSQL.
pub mod Table
pub mod Calls
pub mod Rows
pub mod Outbox
pub mod Lookup
pub mod Keys
pub mod Operations
pub mod Lifecycle
pub mod Progress
pub mod Updates
pub mod Steps
pub mod Runs
pub mod Insertion
pub mod Appending
pub mod Inbox
pub mod InboxKeys
pub mod InboxMemory
pub mod Config
pub mod Configs
pub mod Json
