-- ===== src/Pgx/Outbox.antt =====
-- contrib/pgx/repo.go: the methods of `OutboxRepository`.
use o4x.Prelude.{
  ℕ, Bool, not, ◌&&◌, ◌||◌, Option, none, some, List, [], ◌∷◌, ◌++◌, map, Text, codes, text_eq,
  if◌then◌else◌, ◌==◌, tally, any_of, first_of?,
}
use o4x.Core.Errors.{
  GoError, nil, sentinel, external, wrapped, no_message, already_exists, invalid_status, not_found,
  Result, ok, err,
}
use o4x.Core.Model.{Outbox, OutboxInsertParams, OutboxStatus, enqueued, publishing, status_eq}
use o4x.Core.Repository.{OutboxRepository, BatchOutboxRepository, OutboxCleaner, OutboxRecovery}
use o4x.Pgx.Calls.{Call, Database, query}
use o4x.Pgx.Rows.{
  publishing_with, scanned, older_than, unless_overflow, attempts_used_up, publish_row, fail_row,
  kill_row, lock_row, requeue_row, requeueable, revive_row, stuck,
}
use o4x.Pgx.Table.{Table, has_id, id_among, find_row, update_where, delete_where, oldest, oldest_of}

-- `RowsAffected() == 0` means that no row was in the state PUBLISHING.
abbrev pub affected_error : Text → Result ℕ → GoError
affected_error j (err e) = e
affected_error j (ok n) =
    if n == 0
    then wrapped [] (sentinel invalid_status)
        (codes ": expected PUBLISHING status for message " ++ j)
    else nil

abbrev pub with_error : Text → Database × Result ℕ → Database × GoError
with_error j (db, r) = (db, affected_error j r)

unfoldable pub update_to_published : Text → Database → Database × GoError
update_to_published j db = with_error j (
    query
      (λ call t.
        ok (update_where (publishing_with j) (publish_row call) t, tally (publishing_with j) t))
      db)

unfoldable pub update_to_failed : Text → Text → Database → Database × GoError
update_to_failed j message db = with_error j (
    query
      (λ call t. unless_overflow db (publishing_with j) t (
        update_where (publishing_with j) (fail_row call db message) t,
        tally (publishing_with j) t,
      ))
      db)

unfoldable pub update_to_dead : Text → Text → Database → Database × GoError
update_to_dead j message db = with_error j (
    query
      (λ call t.
        ok
          (update_where (publishing_with j) (kill_row call message) t, tally (publishing_with j) t))
      db)

unfoldable pub requeue_failed : Database → Database × Result ℕ
requeue_failed db =
    query
      (λ call t.
        ok (update_where (requeueable call) (requeue_row call) t, tally (requeueable call) t))
      db

unfoldable pub revive_stuck_publishing : Database → Database × Result ℕ
revive_stuck_publishing db =
    query
      (λ call t.
        unless_overflow db (λ r. stuck call db r && not (attempts_used_up r)) t
          (update_where (stuck call db) (revive_row call db) t, tally (stuck call db) t))
      db

-- The row of a new message, with the defaults of the columns that the query leaves out.
unfoldable pub new_row : Call → OutboxInsertParams → Text → Option Text → Outbox
new_row call params payload metadata = record {
  id = call.new_id;
  event_type = params.event_type;
  payload = payload;
  metadata = metadata;
  idempotency_key = params.idempotency_key;
  status = enqueued;
  error_message = none;
  attempt_count = 1;
  max_attempts = params.max_attempts;
  next_retry_at = none;
  created_at = call.clock;
  updated_at = call.clock;
}

abbrev pub same_key : Text → Text → Outbox → Bool
same_key event_type key r = text_eq r.event_type event_type && text_eq r.idempotency_key key

-- The primary key, and the constraint `UNIQUE (event_type, idempotency_key)`.
abbrev pub conflicts : Outbox → Outbox → Bool
conflicts new r = has_id new.id r || same_key new.event_type new.idempotency_key r

-- `none` is SQLSTATE 23505, a unique violation.
abbrev pub insert_row : Table → Outbox → Result (Table × Option Outbox)
insert_row t new = if any_of (conflicts new) t then ok (t, none) else ok (t ++ new ∷ [], some new)

abbrev pub bad_json : GoError
bad_json = external (codes "invalid input syntax for type json")

-- A nil metadata is NULL; other values are parsed as JSON before any constraint is tested.
abbrev pub metadata_json : Call → Option Text → Result (Option Text)
metadata_json call none = ok none
metadata_json call (some m) = elim (call.jsonb m) [ none ↦ err bad_json | some m' ↦ ok (some m') ]

abbrev pub insert_parsed :
    Call
    → OutboxInsertParams
    → Option Text
    → Result (Option Text)
    → Table
    → Result (Table × Option Outbox)
insert_parsed call params none metadata t = err bad_json
insert_parsed call params (some payload) (err e) t = err e
insert_parsed call params (some payload) (ok metadata) t =
    insert_row t (new_row call params payload metadata)

abbrev pub insert_json : Call → OutboxInsertParams → Table → Result (Table × Option Outbox)
insert_json call params t =
    insert_parsed call params (call.jsonb params.payload) (metadata_json call params.metadata) t

-- `Scan` of at most one row, where no row is the given sentinel.
abbrev pub one_row : GoError → Result (Option Outbox) → Result Outbox
one_row missing (err e) = err e
one_row missing (ok none) = err missing
one_row missing (ok (some r)) = ok r

unfoldable pub insert : OutboxInsertParams → Database → Database × Result Outbox
insert params db =
    let (db', r) = query (λ call t. insert_json call params t) db in
    (db', one_row (sentinel already_exists) r)

-- The rows that `FOR UPDATE SKIP LOCKED` may take.
abbrev pub fetchable : Call → Outbox → Bool
fetchable call r = status_eq r.status enqueued && not (call.locked r.id)

abbrev pub lock_oldest : Call → Option Outbox → Table → Table × Option Outbox
lock_oldest call none t = (t, none)
lock_oldest call (some r) t =
    (update_where (has_id r.id) (lock_row call) t, some (scanned (lock_row call r)))

unfoldable pub fetch_and_lock_to_publishing : Database → Database × Result Outbox
fetch_and_lock_to_publishing db =
    let (db', r) = query (λ call t. ok (lock_oldest call (oldest (fetchable call) t) t)) db in
    (db', one_row (sentinel no_message) r)

abbrev pub ids_of : List Outbox → List Text
ids_of = map (λ r. r.id)

unfoldable pub fetch_lock_and_mark_publishing : ℕ → Database → Database × Result (List Outbox)
fetch_lock_and_mark_publishing limit db =
    query
      (λ call t.
        let chosen = oldest_of limit (fetchable call) t in
        ok (
          update_where (id_among (ids_of chosen)) (lock_row call) t,
          call.arrange (map (λ r. scanned (lock_row call r)) chosen),
        ))
      db

abbrev pub publishing_among : List Text → Outbox → Bool
publishing_among ids r = id_among ids r && status_eq r.status publishing

-- With no ids there is no query.
unfoldable pub update_batch_to_published : List Text → Database → Database × Result ℕ
update_batch_to_published [] db = (db, ok 0)
update_batch_to_published (j ∷ ids) db =
    query
      (λ call t. ok (
        update_where (publishing_among (j ∷ ids)) (publish_row call) t,
        tally (publishing_among (j ∷ ids)) t,
      ))
      db

unfoldable pub get_by_id : Text → Database → Database × Result Outbox
get_by_id j db =
    let (db', r) = query (λ call t. ok (t, find_row j t)) db in
    (db', one_row (sentinel not_found) r)

unfoldable pub get_by_idempotency_key : Text → Text → Database → Database × Result Outbox
get_by_idempotency_key event_type key db =
    let (db', r) = query (λ call t. ok (t, first_of? (same_key event_type key) t)) db in
    (db', one_row (sentinel not_found) r)

abbrev pub status_among : List OutboxStatus → Outbox → Bool
status_among statuses r = any_of (status_eq r.status) statuses

unfoldable pub delete_older_than : List OutboxStatus → ℕ → Database → Database × Result ℕ
delete_older_than [] age db = (db, err (external (codes "at least one status must be specified")))
delete_older_than (s ∷ statuses) age db =
    query
      (λ call t.
        let old = λ (r : Outbox). status_among (s ∷ statuses) r && older_than call.clock age r in
        ok (delete_where old t, tally old t))
      db

unfoldable pub outbox_repository : OutboxRepository Database
outbox_repository = record {
  insert = insert;
  fetch_and_lock_to_publishing = fetch_and_lock_to_publishing;
  update_to_published = update_to_published;
  update_to_failed = update_to_failed;
  update_to_dead = update_to_dead;
  requeue_failed = requeue_failed;
  get_by_id = get_by_id;
  get_by_idempotency_key = get_by_idempotency_key;
}

unfoldable pub batch_outbox_repository : BatchOutboxRepository Database
unfolding outbox_repository
batch_outbox_repository = record {
  outbox = outbox_repository;
  fetch_lock_and_mark_publishing = fetch_lock_and_mark_publishing;
  update_batch_to_published = update_batch_to_published;
}

unfoldable pub outbox_cleaner : OutboxCleaner Database
outbox_cleaner = record { delete_older_than = delete_older_than }

unfoldable pub outbox_recovery : OutboxRecovery Database
outbox_recovery = record { revive_stuck_publishing = revive_stuck_publishing }
