-- ===== src/Sqs.antt =====
-- contrib/sqs/: the publishers on Amazon SQS.
pub mod QueueMap
pub mod Prefixes
pub mod Routes
pub mod Messages
pub mod Batch
pub mod Confirmations
pub mod BatchResults
pub mod MultiBatch
pub mod GroupResults
pub mod MultiResults
