-- ===== src/Consumer.antt =====
-- contrib/sqs/consumer/: the service that receives messages and calls handlers.
pub mod Message
pub mod Delivery
pub mod Hooks
pub mod Config
pub mod Life
pub mod Router
pub mod Routing
pub mod Registry
pub mod Service
pub mod Settling
pub mod Pool
pub mod PoolRuns
