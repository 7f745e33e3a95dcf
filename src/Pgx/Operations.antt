-- ===== src/Pgx/Operations.antt =====
-- contrib/pgx/repo.go: any mix of calls of the repository, from any number of workers. Each statement is
-- atomic, so an interleaving of workers is a list of calls. (`DeleteOlderThan` is left out here: it
-- ends the life of a row.)
use o4x.Prelude.{ℕ, List, [], ◌∷◌, Text}
use o4x.Core.Model.{OutboxInsertParams}
use o4x.Pgx.Calls.{Database}
use o4x.Pgx.Outbox.{
  insert, fetch_and_lock_to_publishing, fetch_lock_and_mark_publishing, update_to_published,
  update_to_failed, update_to_dead, update_batch_to_published, requeue_failed,
  revive_stuck_publishing, get_by_id, get_by_idempotency_key,
}

pub data Operation : Type 0 where
  inserting : OutboxInsertParams → Operation
  fetching : Operation
  fetching_batch : ℕ → Operation
  to_published : Text → Operation
  to_failed : Text → Text → Operation
  to_dead : Text → Text → Operation
  batch_to_published : List Text → Operation
  requeuing : Operation
  reviving : Operation
  getting : Text → Operation
  getting_by_key : Text → Text → Operation

unfoldable pub perform : Operation → Database → Database
perform (inserting params) db = (insert params db).0
perform fetching db = (fetch_and_lock_to_publishing db).0
perform (fetching_batch n) db = (fetch_lock_and_mark_publishing n db).0
perform (to_published j) db = (update_to_published j db).0
perform (to_failed j message) db = (update_to_failed j message db).0
perform (to_dead j message) db = (update_to_dead j message db).0
perform (batch_to_published js) db = (update_batch_to_published js db).0
perform requeuing db = (requeue_failed db).0
perform reviving db = (revive_stuck_publishing db).0
perform (getting j) db = (get_by_id j db).0
perform (getting_by_key event_type key) db = (get_by_idempotency_key event_type key db).0

unfoldable pub perform_all : List Operation → Database → Database
perform_all [] db = db
perform_all (op ∷ ops) db = perform_all ops (perform op db)
