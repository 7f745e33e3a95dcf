-- ===== src/Tests.antt =====
-- Runs at concrete inputs.
mod Samples
mod CoreRuns
mod PgxRuns
mod StaleRun
mod SqsRuns
mod DispatcherRuns
mod BackoffRuns
mod BatchRuns
mod ConsumerSamples
mod ConsumerRuns
mod InboxRuns
mod GormRuns
mod LifeRuns
mod LoopRuns
mod AppRuns
mod ShopRuns
