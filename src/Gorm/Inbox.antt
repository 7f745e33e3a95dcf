-- ===== src/Gorm/Inbox.antt =====
-- contrib/gorm/inbox_repo.go: the methods of `InboxRepository`, on the table of Pgx/Inbox.antt.
use o4x.Prelude.{ℕ, Bool, ltb, Text, codes, tally, length, ◌-◌}
use o4x.Core.Errors.{GoError, Result, ok, err}
use o4x.Core.Inbox.{ConsumerInbox, InboxRepository, InboxCleaner}
use o4x.Pgx.Inbox.{
  InboxTable, InboxCall, InboxDatabase, same_event, in_context, only_error, with_found,
  completed_before, insert_completion, delete_completed,
}
use o4x.Gorm.Orm.{Orm, Sql}

abbrev pub above_zero : Result ℕ → Result Bool
above_zero (ok n) = ok (ltb 0 n)
above_zero (err e) = err e

abbrev pub with_above_zero : InboxDatabase × Result ℕ → InboxDatabase × Result Bool
with_above_zero (db, r) = (db, above_zero r)

-- `RowsAffected` of the insert: how many rows are new.
abbrev pub rows_added : Text → Text → InboxCall → InboxTable → ℕ
rows_added c e call t = length (insert_completion call c e t) - length t

abbrev pub inserted : Text → Text → Sql ConsumerInbox InboxCall ℕ
inserted c e call t = ok (insert_completion call c e t, rows_added c e call t)

module _ (orm : Orm ConsumerInbox InboxCall InboxDatabase) where
  unfoldable pub is_processed : Text → Text → InboxDatabase → InboxDatabase × Result Bool
  is_processed consumer_name event_id db =
      in_context (codes "failed to check inbox record: ")
        (with_above_zero (orm.count (same_event consumer_name event_id) db))

  unfoldable pub complete : Text → Text → InboxDatabase → InboxDatabase × GoError
  complete consumer_name event_id db = only_error (
      in_context (codes "failed to insert inbox completion record: ")
        (orm.exec (inserted consumer_name event_id) db))

  unfoldable pub get_by_event_id :
      Text → Text → InboxDatabase → InboxDatabase × Result ConsumerInbox
  get_by_event_id consumer_name event_id db =
      with_found (orm.first (same_event consumer_name event_id) db)

  unfoldable pub delete_inbox_older_than : ℕ → InboxDatabase → InboxDatabase × Result ℕ
  delete_inbox_older_than age db = in_context (codes "failed to delete old inbox records: ") (
      orm.exec
        (λ call t. ok (delete_completed age call t, tally (completed_before age call.clock) t)) db)

  unfoldable pub inbox_repository : InboxRepository InboxDatabase
  inbox_repository = record {
    is_processed = is_processed;
    complete = complete;
    get_by_event_id = get_by_event_id;
  }

  unfoldable pub inbox_cleaner : InboxCleaner InboxDatabase
  inbox_cleaner = record { delete_older_than = delete_inbox_older_than }
