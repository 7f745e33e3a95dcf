-- ===== src/Tests/LoopRuns.antt =====
-- The requeue worker on a failed message, and a batch for several queues.
use o4x.Prelude.{ℕ, ◌≡◌, refl, some, List, [], ◌∷◌, Text, codes, text_eq, arith}
use o4x.Core.Model.{Outbox, enqueued, failed}
use o4x.Core.Requeue.{run_requeue_worker}
use o4x.Pgx.Table.{find_row}
use o4x.Pgx.Calls.{Database}
use o4x.Pgx.Outbox.{outbox_repository}
use o4x.System.Requeue.{run_requeue_worker-retries}
use o4x.Tests.Samples.{order_row, one_row}

abbrev failed_row : Outbox
failed_row = record order_row { status = failed; next_retry_at = some 3500000 }

abbrev one_failed : Database
one_failed = record one_row { table = failed_row ∷ [] }

-- The second tick comes at three seconds, the third one at four.
run_requeue_worker-retries_example :
    (now : ℕ) × (find_row (0 ∷ []) (run_requeue_worker outbox_repository 5 one_failed).table
      ≡ some (record failed_row { status = enqueued; updated_at = now }))
unfolding text_eq
run_requeue_worker-retries_example =
    run_requeue_worker-retries 5 one_failed (0 ∷ []) failed_row 3500000 2 refl
      (record { is_failed = refl; has_attempts = refl; due = refl }) (omega arith) refl refl

abbrev by_type : Text → Text
by_type event_type = event_type

abbrev paid_row : Outbox
paid_row = record order_row { id = 1 ∷ []; event_type = codes "order.paid" }

abbrev two_queues : List Outbox
two_queues = order_row ∷ paid_row ∷ []

-- The goroutine of the second queue comes first.
abbrev swapped : List Text → List Text
swapped (a ∷ b ∷ urls) = b ∷ a ∷ urls
swapped urls = urls
