-- ===== src/System.antt =====
-- core/ over contrib/pgx: the dispatchers with their repository.
pub mod Answers
pub mod OneMessage
pub mod Fate
pub mod StaleWorker
pub mod BatchRun
pub mod BatchRows
pub mod BatchLoop
pub mod BatchFate
pub mod Requeue
