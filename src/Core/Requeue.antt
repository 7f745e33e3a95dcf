-- ===== src/Core/Requeue.antt =====
-- core/dispatcher.go and core/batch_dispatcher.go: `runRequeueWorker`, over the ticks that come before the context is
-- cancelled. Its errors and counts are only logged.
use o4x.Prelude.{ℕ, zero, suc, ◌≡◌, refl}
use o4x.Core.Repository.{OutboxRepository, BatchOutboxRepository}

module _ {S : Type 0} where
  unfoldable pub run_requeue_worker : OutboxRepository S → ℕ → S → S
  run_requeue_worker repo zero s = s
  run_requeue_worker repo (suc ticks) s = run_requeue_worker repo ticks (repo.requeue_failed s).0

  unfoldable pub run_batch_requeue_worker : BatchOutboxRepository S → ℕ → S → S
  run_batch_requeue_worker repo zero s = s
  run_batch_requeue_worker repo (suc ticks) s =
      run_batch_requeue_worker repo ticks (repo.requeue_failed s).0

  -- The two dispatchers requeue in the same way.
  pub run_batch_requeue_worker-outbox :
      (repo : BatchOutboxRepository S) (ticks : ℕ) (s : S)
      → run_batch_requeue_worker repo ticks s ≡ run_requeue_worker repo.outbox ticks s
  unfolding run_batch_requeue_worker run_requeue_worker
  run_batch_requeue_worker-outbox repo zero s = refl
  run_batch_requeue_worker-outbox repo (suc ticks) s = run_batch_requeue_worker-outbox repo ticks _
