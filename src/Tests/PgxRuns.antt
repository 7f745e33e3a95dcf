-- ===== src/Tests/PgxRuns.antt =====
-- contrib/pgx and the worker over it, on sample tables.
use mathlib.Core.Path.{refl}
use o4x.Prelude.{◌+◌, ◌-◌, ◌≤◌, ◌≡◌, ◌≢◌, some, List, [], ◌∷◌, codes, text_eq}
use o4x.Core.Errors.{external, ok}
use o4x.Core.Model.{Outbox}
use o4x.Pgx.Table.{find_row, update_where, has_id, oldest}
use o4x.Pgx.Rows.{lock_row, fail_row, requeueable, requeue_row, publish_row}
use o4x.Pgx.Outbox.{
  insert, new_row, fetch_and_lock_to_publishing, update_to_failed, requeue_failed,
  update_to_published,
}
use o4x.Pgx.Operations.{
  Operation, fetching, requeuing, to_published, to_failed, perform, perform_all,
}
use o4x.Pgx.Runs.{Walks, perform_all-kept, entered_in}
use o4x.Pgx.Insertion.{insert-attempts, insert_again}
use o4x.Core.Worker.{process_one}
use o4x.System.OneMessage.{Leaves, process_one_up, pgx_worker, settled_row}
use o4x.System.Fate.{Fate, process_one-Fate}
use o4x.Tests.Samples.{
  order_created, order_row, no_rows, one_row, accepting, down, setup_with, world_of,
}

abbrev retried : List Operation
retried =
    fetching
    ∷ to_failed (0 ∷ []) (codes "timeout")
    ∷ requeuing
    ∷ requeuing
    ∷ fetching
    ∷ to_published (0 ∷ [])
    ∷ []

retried_entries : entered_in (0 ∷ []) retried one_row ≡ 2
unfolding entered_in perform text_eq fetch_and_lock_to_publishing oldest update_where lock_row
    update_to_failed fail_row requeue_failed requeueable requeue_row update_to_published publish_row
retried_entries = refl

perform_all-kept_example : Walks (0 ∷ []) retried one_row order_row
unfolding text_eq
perform_all-kept_example = perform_all-kept retried one_row (0 ∷ []) order_row (refl, tt) refl

insert-attempts_example : entered_in (0 ∷ []) retried (insert order_created no_rows).0 ≤ 1 + (3 - 2)
unfolding insert new_row
insert-attempts_example = insert-attempts order_created no_rows order_row retried tt refl

insert_again_example :
    ((insert order_created (perform_all retried (insert order_created no_rows).0)).0.table
      ≡ (perform_all retried (insert order_created no_rows).0).table)
    × ((insert order_created (perform_all retried (insert order_created no_rows).0)).1
        ≢ ok order_row)
unfolding insert new_row
insert_again_example =
    insert_again order_created order_created no_rows order_row order_row retried tt refl refl refl

process_one_up_example :
    Leaves
      (process_one (pgx_worker (setup_with accepting)) (world_of one_row))
      (update_where
        (has_id (0 ∷ []))
        (settled_row (setup_with accepting) (world_of one_row) order_row)
        (order_row ∷ []))
      1
unfolding oldest
process_one_up_example =
    process_one_up (setup_with accepting) (world_of one_row) order_row refl refl (refl, tt) refl
      refl

process_one-Fate_example :
    (q : Outbox) × (find_row
        (0 ∷ [])
        (process_one (pgx_worker (setup_with down)) (world_of one_row)).0.store.table
      ≡ some q)
    × Fate (external (codes "connection refused")) order_row q
unfolding oldest
process_one-Fate_example =
    process_one-Fate (setup_with down) (world_of one_row) order_row refl refl (refl, tt) refl refl
