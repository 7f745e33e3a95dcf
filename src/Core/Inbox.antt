-- ===== src/Core/Inbox.antt =====
-- core/inbox_repository.go: the interfaces of the inbox and the repository that does nothing. The state behind the
-- interface is passed on as in Core/Repository.antt; a UUID is its 16 bytes, times are microseconds.
use o4x.Prelude.{ℕ, Bool, false, Text}
use o4x.Core.Errors.{GoError, Result, ok, err, nil, sentinel, not_found}

pub record ConsumerInbox : Type 0 where
  pub consumer_name : Text
  pub event_id : Text
  pub completed_at : ℕ

pub record InboxRepository (S : Type 0) : Type 0 where
  pub is_processed : Text → Text → S → S × Result Bool
  pub complete : Text → Text → S → S × GoError
  pub get_by_event_id : Text → Text → S → S × Result ConsumerInbox

pub record InboxCleaner (S : Type 0) : Type 0 where
  pub delete_older_than : ℕ → S → S × Result ℕ

unfoldable pub nop_inbox_repository : {S : Type 0} → InboxRepository S
nop_inbox_repository = record {
  is_processed = λ consumer_name event_id s. (s, ok false);
  complete = λ consumer_name event_id s. (s, nil);
  get_by_event_id = λ consumer_name event_id s. (s, err (sentinel not_found));
}

unfoldable pub nop_inbox_cleaner : {S : Type 0} → InboxCleaner S
nop_inbox_cleaner = record { delete_older_than = λ older_than s. (s, ok 0) }
