-- ===== src/Pgx/Inbox.antt =====
-- contrib/pgx/inbox_repo.go: the methods of `InboxRepository`, on the table of schema/schema.go with its primary key
-- (consumer_name, event_id). A transaction of `WithTx` is another connection: one more schedule of calls.
use o4x.Prelude.{
  ℕ, suc, ◌+◌, Bool, not, ◌&&◌, Option, none, some, List, [], ◌∷◌, ◌++◌, Text, codes, text_eq,
  if◌then◌else◌, ltb, select, tally, any_of, first_of?,
}
use o4x.Core.Errors.{GoError, nil, sentinel, wrapped, not_found, Result, ok, err}
use o4x.Core.Inbox.{ConsumerInbox, InboxRepository, InboxCleaner}
use o4x.Pgx.Calls.{Link, answered}

abbrev pub InboxTable : Type 0
InboxTable = List ConsumerInbox

-- What one call meets: the connection, and `clock_timestamp()`.
pub record InboxCall : Type 0 where
  pub link : Link
  pub clock : ℕ

pub record InboxDatabase : Type 0 where
  pub inbox : InboxTable
  pub calls : ℕ
  pub schedule : ℕ → InboxCall

abbrev pub inbox_call : InboxDatabase → InboxCall
inbox_call db = db.schedule db.calls

-- One statement: a new table and an answer, or an error of the server.
abbrev pub inbox_query :
    {A : Type 0}
    → (InboxCall → InboxTable → Result (InboxTable × A))
    → InboxDatabase
    → InboxDatabase × Result A
inbox_query stmt db =
    let (t, r) = answered db.inbox (inbox_call db).link (stmt (inbox_call db) db.inbox) in
    (record db { inbox = t; calls = suc db.calls }, r)

abbrev pub same_event : Text → Text → ConsumerInbox → Bool
same_event consumer_name event_id r =
    text_eq r.consumer_name consumer_name && text_eq r.event_id event_id

-- `fmt.Errorf` around an error of the driver.
abbrev pub context : {A : Type 0} → Text → Result A → Result A
context message (ok a) = ok a
context message (err e) = err (wrapped message e [])

abbrev pub in_context : {A : Type 0} → Text → InboxDatabase × Result A → InboxDatabase × Result A
in_context message (db, r) = (db, context message r)

unfoldable pub is_processed : Text → Text → InboxDatabase → InboxDatabase × Result Bool
is_processed consumer_name event_id db =
    in_context (codes "failed to check inbox record: ")
      (inbox_query (λ call t. ok (t, any_of (same_event consumer_name event_id) t)) db)

abbrev pub completion : InboxCall → Text → Text → ConsumerInbox
completion call consumer_name event_id = record {
  consumer_name = consumer_name;
  event_id = event_id;
  completed_at = call.clock;
}

-- `ON CONFLICT (consumer_name, event_id) DO NOTHING`
unfoldable pub insert_completion : InboxCall → Text → Text → InboxTable → InboxTable
insert_completion call consumer_name event_id t =
    if any_of (same_event consumer_name event_id) t
    then t
    else t ++ completion call consumer_name event_id ∷ []

abbrev pub error_of : {A : Type 0} → Result A → GoError
error_of (ok a) = nil
error_of (err e) = e

abbrev pub only_error : {A : Type 0} → InboxDatabase × Result A → InboxDatabase × GoError
only_error (db, r) = (db, error_of r)

unfoldable pub complete : Text → Text → InboxDatabase → InboxDatabase × GoError
complete consumer_name event_id db = only_error (
    in_context {A = Unit} (codes "failed to insert inbox completion record: ")
      (inbox_query (λ call t. ok (insert_completion call consumer_name event_id t, tt)) db))

-- No row is `ErrNotFound`.
abbrev pub found : Result (Option ConsumerInbox) → Result ConsumerInbox
found (err e) = err (wrapped (codes "failed to get inbox record: ") e [])
found (ok none) = err (sentinel not_found)
found (ok (some r)) = ok r

abbrev pub with_found :
    InboxDatabase × Result (Option ConsumerInbox) → InboxDatabase × Result ConsumerInbox
with_found (db, r) = (db, found r)

unfoldable pub get_by_event_id : Text → Text → InboxDatabase → InboxDatabase × Result ConsumerInbox
get_by_event_id consumer_name event_id db =
    with_found (inbox_query (λ call t. ok (t, first_of? (same_event consumer_name event_id) t)) db)

-- `completed_at < clock_timestamp() - age`
abbrev pub completed_before : ℕ → ℕ → ConsumerInbox → Bool
completed_before age clock r = ltb (r.completed_at + age) clock

unfoldable pub delete_completed : ℕ → InboxCall → InboxTable → InboxTable
delete_completed age call t = select (λ r. not (completed_before age call.clock r)) t

unfoldable pub delete_inbox_older_than : ℕ → InboxDatabase → InboxDatabase × Result ℕ
delete_inbox_older_than age db = in_context (codes "failed to delete old inbox records: ") (
    inbox_query
      (λ call t. ok (delete_completed age call t, tally (completed_before age call.clock) t)) db)

unfoldable pub inbox_repository : InboxRepository InboxDatabase
inbox_repository = record {
  is_processed = is_processed;
  complete = complete;
  get_by_event_id = get_by_event_id;
}

unfoldable pub inbox_cleaner : InboxCleaner InboxDatabase
inbox_cleaner = record { delete_older_than = delete_inbox_older_than }
