-- ===== src/Core.antt =====
-- core/: the library's own package.
pub mod Errors
pub mod Chains
pub mod Truncate
pub mod Regex
pub mod TableName
pub mod TableNames
pub mod Utf8Prefix
pub mod Truncation
pub mod Model
pub mod Repository
pub mod Hooks
pub mod Worker
pub mod BatchWorker
pub mod Int64
pub mod Decimal
pub mod Backoff
pub mod Backoffs
pub mod DispatcherConfig
pub mod Defaults
pub mod Configs
pub mod BatchConfig
pub mod BatchConfigs
pub mod Switch
pub mod Dispatcher
pub mod Health
pub mod BatchLife
pub mod Shutdown
pub mod Inbox
pub mod Requeue
