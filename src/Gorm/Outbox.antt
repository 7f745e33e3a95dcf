-- ===== src/Gorm/Outbox.antt =====
-- contrib/gorm/repo.go: the methods of `OutboxRepository`, on the table of Pgx/Table.antt. The fields of the repository are
-- those of `Database`; the conditions and assignments of its queries are in Gorm/Queries.antt. What the server does
-- with a statement is in Pgx/Table.antt, and that it refuses an interval beyond its range in Pgx/Rows.antt.
use o4x.Prelude.{
  ℕ, Bool, not, ◌&&◌, ◌==◌, Option, none, some, List, [], ◌∷◌, ◌++◌, map, Text, codes, text_eq,
  any_of, tally, if◌then◌else◌,
}
use o4x.Core.Errors.{
  GoError, sentinel, external, no_message, already_exists, not_found, Result, ok, err,
}
use o4x.Core.Model.{Outbox, OutboxInsertParams, OutboxStatus, enqueued}
use o4x.Core.Repository.{OutboxRepository}
use o4x.Pgx.Calls.{Call, Database, now_call}
use o4x.Pgx.Rows.{unless_overflow}
use o4x.Pgx.Table.{Table, update_where, delete_where, oldest, oldest_of}
use o4x.Pgx.Outbox.{with_error, bad_json, metadata_json, conflicts, one_row}
use o4x.Gorm.Queries.{
  set, publishing_where, publishing_in, requeue_where, stuck_where, old_where, free_where,
  lock_values, published_values, failed_values, dead_values, requeued_values, is_last,
  revived_values, returned,
}
use o4x.Gorm.Orm.{Orm, Sql}

-- `outboxModel` as `Insert` fills it; the other fields have their zero values.
pub record OutboxModel : Type 0 where
  pub id : Text
  pub event_type : Text
  pub payload : Text
  pub metadata : Option Text
  pub idempotency_key : Text
  pub status : OutboxStatus
  pub max_attempts : ℕ

-- The tags of the struct: a zero `AttemptCount` or `MaxAttempts` becomes the default, and `CreatedAt` and
-- `UpdatedAt` the time of the application's clock.
unfoldable pub row_of_model : ℕ → OutboxModel → Text → Option Text → Outbox
row_of_model now m payload metadata = record {
  id = m.id;
  event_type = m.event_type;
  payload = payload;
  metadata = metadata;
  idempotency_key = m.idempotency_key;
  status = m.status;
  error_message = none;
  attempt_count = 1;
  max_attempts = if m.max_attempts == 0 then 10 else m.max_attempts;
  next_retry_at = none;
  created_at = now;
  updated_at = now;
}

-- The insert of a model. The model keeps the bytes that it was given, while the row has the server's
-- text of the JSON values; `none` is SQLSTATE 23505.
abbrev create_model : OutboxModel → Outbox → Table → Result (Table × Option Outbox)
create_model m r t =
    if any_of (conflicts r) t
    then ok (t, none)
    else ok (t ++ r ∷ [], some (record r { payload = m.payload; metadata = m.metadata }))

abbrev pub create_parsed :
    ℕ → OutboxModel → Option Text → Result (Option Text) → Table → Result (Table × Option Outbox)
create_parsed now m none metadata t = err bad_json
create_parsed now m (some payload) (err e) t = err e
create_parsed now m (some payload) (ok metadata) t =
    create_model m (row_of_model now m payload metadata) t

unfoldable pub create_statement : ℕ → OutboxModel → Sql Outbox Call (Option Outbox)
create_statement now m call t =
    create_parsed now m (call.jsonb m.payload) (metadata_json call m.metadata) t

-- `Create`, with the application's clock at each call.
pub record Creator : Type 0 where
  pub now : Call → ℕ
  pub create : OutboxModel → Database → Database × Result (Option Outbox)

unfoldable pub model_of : Text → OutboxInsertParams → OutboxModel
model_of id params = record {
  id = id;
  event_type = params.event_type;
  payload = params.payload;
  metadata = params.metadata;
  idempotency_key = params.idempotency_key;
  status = enqueued;
  max_attempts = params.max_attempts;
}

-- `Where(p).Updates(f)`
abbrev pub updates : (Call → Outbox → Bool) → (Call → Outbox → Outbox) → Sql Outbox Call ℕ
updates p f call t = ok (update_where (p call) (f call) t, tally (p call) t)

abbrev pub with_row : GoError → Database × Result (Option Outbox) → Database × Result Outbox
with_row missing (db, r) = (db, one_row missing r)

-- `Where(p).Delete`
abbrev pub deletes : (Call → Outbox → Bool) → Sql Outbox Call ℕ
deletes p call t = ok (delete_where (p call) t, tally (p call) t)

unfoldable pub insert : Creator → OutboxInsertParams → Database → Database × Result Outbox
insert creator params db =
    with_row (sentinel already_exists) (creator.create (model_of (now_call db).new_id params) db)

-- The two parts of the raw query: the row of the CTE `locked`, which is updated and returned.
abbrev pub lock_first : Call → Option Outbox → Table → Table × Option Outbox
lock_first call none t = (t, none)
lock_first call (some r) t = (
  update_where (λ q. text_eq q.id r.id) (set (lock_values call)) t,
  some (returned (set (lock_values call) r)),
)

module _ (orm : Orm Outbox Call Database) where
  unfoldable pub fetch_and_lock_to_publishing : Database → Database × Result Outbox
  fetch_and_lock_to_publishing db =
      with_row (sentinel no_message)
        (orm.scan (λ call t. ok (lock_first call (oldest (free_where call) t) t)) db)

  unfoldable pub update_to_published : Text → Database → Database × GoError
  update_to_published id db =
      with_error id
        (orm.exec (updates (λ call. publishing_where id) (λ call. set (published_values call))) db)

  unfoldable pub update_to_failed : Text → Text → Database → Database × GoError
  update_to_failed id err_msg db = with_error id (
      orm.exec
        (λ call t. unless_overflow db (publishing_where id) t (
          update_where (publishing_where id) (set (failed_values call db err_msg)) t,
          tally (publishing_where id) t,
        ))
        db)

  unfoldable pub update_to_dead : Text → Text → Database → Database × GoError
  update_to_dead id err_msg db =
      with_error id (
        orm.exec (updates (λ call. publishing_where id) (λ call. set (dead_values call err_msg)))
          db)

  unfoldable pub requeue_failed : Database → Database × Result ℕ
  requeue_failed db = orm.exec (updates requeue_where (λ call. set (requeued_values call))) db

  unfoldable pub get_by_id : Text → Database → Database × Result Outbox
  get_by_id id db = with_row (sentinel not_found) (orm.first (λ r. text_eq r.id id) db)

  unfoldable pub get_by_idempotency_key : Text → Text → Database → Database × Result Outbox
  get_by_idempotency_key event_type idempotency_key db = with_row (sentinel not_found) (
      orm.first (λ r. text_eq r.event_type event_type && text_eq r.idempotency_key idempotency_key)
        db)

  unfoldable pub revive_stuck_publishing : Database → Database × Result ℕ
  revive_stuck_publishing db =
      orm.exec
        (λ call t.
          unless_overflow db (λ r. stuck_where call db r && not (is_last r)) t
            (
              update_where (stuck_where call db) (set (revived_values call db)) t,
              tally (stuck_where call db) t,
            ))
        db

  unfoldable pub fetch_lock_and_mark_publishing : ℕ → Database → Database × Result (List Outbox)
  fetch_lock_and_mark_publishing limit db =
      orm.scan_all
        (λ call t.
          let locked = oldest_of limit (free_where call) t in
          ok (
            update_where (λ q. any_of (text_eq q.id) (map (λ r. r.id) locked))
                (set (lock_values call)) t,
            call.arrange (map (λ r. returned (set (lock_values call) r)) locked),
          ))
        db

  unfoldable pub update_batch_to_published : List Text → Database → Database × Result ℕ
  update_batch_to_published [] db = (db, ok 0)
  update_batch_to_published (id ∷ ids) db =
      orm.exec (updates (λ call. publishing_in (id ∷ ids)) (λ call. set (published_values call))) db

  unfoldable pub delete_older_than : List OutboxStatus → ℕ → Database → Database × Result ℕ
  delete_older_than [] age db = (db, err (external (codes "at least one status must be specified")))
  delete_older_than (s ∷ statuses) age db = orm.exec (deletes (old_where (s ∷ statuses) age)) db

  unfoldable pub outbox_repository : Creator → OutboxRepository Database
  outbox_repository creator = record {
    insert = insert creator;
    fetch_and_lock_to_publishing = fetch_and_lock_to_publishing;
    update_to_published = update_to_published;
    update_to_failed = update_to_failed;
    update_to_dead = update_to_dead;
    requeue_failed = requeue_failed;
    get_by_id = get_by_id;
    get_by_idempotency_key = get_by_idempotency_key;
  }
