-- ===== src/Tests/BatchRuns.antt =====
-- core/batch_dispatcher.go between a sample table and a sample queue.
use mathlib.Core.Path.{refl}
use o4x.Prelude.{ℕ, zero, suc, ◌≡◌, [], ◌∷◌, none, some, codes, text_eq, true}
use o4x.Core.Model.{Outbox, publishing}
use o4x.Core.BatchWorker.{BatchDispatcher, publish_messages, settle, finish_batch, run_batch_worker}
use o4x.Core.Worker.{World}
use o4x.Pgx.Calls.{Database}
use o4x.Pgx.Outbox.{batch_outbox_repository}
use o4x.Sqs.Batch.{
  sqs_batch_publisher, publish_batch, entries_of, validated, batch_answered, fill, last_of,
}
use o4x.System.BatchFate.{Honest, Distinct, publish_messages-Honest}
use o4x.System.BatchLoop.{pgx_batch}
use o4x.System.BatchRows.{RowIs}
use o4x.Core.Repository.{PublishResult}
use o4x.Core.Hooks.{call_on_batch_publish_start}
use o4x.Core.Errors.{nil}
use o4x.Sqs.Messages.{build_batch_entry, too_large}
use o4x.System.BatchRun.{run_batch_worker_ends}
use o4x.Tests.Samples.{order_row, one_row, world_of, taking}

abbrev dispatcher : BatchDispatcher Database ℕ
dispatcher = record {
  repo = batch_outbox_repository;
  publisher = sqs_batch_publisher taking (codes "orders.fifo");
  hooks = none;
  replace_all = λ pattern src repl. src;
  batch_size = 10;
  poll_interval = 100;
  max_poll_interval = 3200;
}

abbrev picked_up : Outbox
picked_up = record order_row { status = publishing; updated_at = 2000000 }

run_batch_worker_ends_example :
    (w : World Database ℕ) × (run_batch_worker dispatcher 5 100 (world_of one_row) ≡ some w)
run_batch_worker_ends_example =
    run_batch_worker_ends dispatcher taking (codes "orders.fifo") refl 5 100 (world_of one_row)

abbrev being_published : Database
being_published = record one_row { table = picked_up ∷ [] }

one_message-Distinct : Distinct (picked_up ∷ [])
one_message-Distinct zero zero x y p q e = refl
one_message-Distinct zero (suc b) x y p q e = absurd (cc (q))
one_message-Distinct (suc a) b x y p q e = absurd (cc (p))

abbrev taken : PublishResult
taken = record { outbox_id = 0 ∷ []; message_id = codes "m"; success = true; error = nil }

abbrev all_sent : World Database ℕ
all_sent =
    finish_batch (pgx_batch dispatcher)
      (record (world_of being_published) { broker = 1 }, (picked_up ∷ [], 0))

publish_messages-Honest_example : RowIs (Honest true) (0 ∷ []) all_sent.store.table
unfolding text_eq publish_messages settle pgx_batch sqs_batch_publisher publish_batch entries_of
    validated batch_answered fill last_of build_batch_entry too_large call_on_batch_publish_start
publish_messages-Honest_example =
    publish_messages-Honest dispatcher (picked_up ∷ []) one_message-Distinct
      (world_of being_published) (all_sent, 1) 0 picked_up taken refl refl
      (record { row = picked_up; found = refl; state = refl }) refl
