-- ===== src/Core/Repository.antt =====
-- core/repository.go and core/publisher.go: the interfaces behind which the dispatchers see the
-- database and the broker. A method takes the state behind the interface and returns it changed.
use o4x.Prelude.{ℕ, Bool, Text, List}
use o4x.Core.Errors.{GoError, Result}
use o4x.Core.Model.{Outbox, OutboxInsertParams, OutboxStatus}

pub record OutboxRepository (S : Type 0) : Type 0 where
  pub insert : OutboxInsertParams → S → S × Result Outbox
  pub fetch_and_lock_to_publishing : S → S × Result Outbox
  pub update_to_published : Text → S → S × GoError
  pub update_to_failed : Text → Text → S → S × GoError
  pub update_to_dead : Text → Text → S → S × GoError
  pub requeue_failed : S → S × Result ℕ
  pub get_by_id : Text → S → S × Result Outbox
  pub get_by_idempotency_key : Text → Text → S → S × Result Outbox

pub record BatchOutboxRepository (S : Type 0) : Type 0 where
  pub outbox : OutboxRepository S
  pub open outbox use *
  pub fetch_lock_and_mark_publishing : ℕ → S → S × Result (List Outbox)
  pub update_batch_to_published : List Text → S → S × Result ℕ

pub record OutboxCleaner (S : Type 0) : Type 0 where
  pub delete_older_than : List OutboxStatus → ℕ → S → S × Result ℕ

pub record OutboxRecovery (S : Type 0) : Type 0 where
  pub revive_stuck_publishing : S → S × Result ℕ

pub record PublishResult : Type 0 where
  pub outbox_id : Text
  pub message_id : Text
  pub success : Bool
  pub error : GoError

pub record Publisher (P : Type 0) : Type 0 where
  pub publish : Outbox → P → P × GoError

pub record BatchPublisher (P : Type 0) : Type 0 where
  pub publisher : Publisher P
  pub open publisher use *
  pub publish_batch : List Outbox → P → P × List PublishResult
  pub max_batch_size : ℕ
