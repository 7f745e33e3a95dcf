-- ===== src/Pgx/Config.antt =====
-- contrib/pgx/config.go, and what `NewOutboxRepository`, `NewInboxRepository` and `WithTx` of contrib/pgx/ make of it.
-- A panic is `none`; a connection, which is the pool or a transaction, is of a type `C`. Durations are
-- nanoseconds in 64 bits.
use o4x.Prelude.{Bool, Option, none, some, List, [], ◌∷◌, Text, codes, if◌then◌else◌}
use o4x.Core.Int64.{ℤ, pos}
use o4x.Core.Errors.{is_nil}
use o4x.Core.TableName.{validate_table_name}

pub record Config : Type 0 where
  pub outbox_table_name : Text
  pub inbox_table_name : Text
  pub requeue_backoff_base : ℤ
  pub requeue_backoff_max : ℤ
  pub stuck_publishing_threshold : ℤ

unfoldable pub default_config : Config
default_config = record {
  outbox_table_name = codes "outbox";
  inbox_table_name = codes "consumer_inbox";
  requeue_backoff_base = pos 1000000000;
  requeue_backoff_max = pos 3600000000000;
  stuck_publishing_threshold = pos 300000000000;
}

abbrev pub is_valid : Text → Bool
is_valid name = is_nil (validate_table_name name)

unfoldable pub with_outbox_table_name : Text → Option (Config → Config)
with_outbox_table_name name =
    if is_valid name then some (λ c. record c { outbox_table_name = name }) else none

unfoldable pub with_inbox_table_name : Text → Option (Config → Config)
with_inbox_table_name name =
    if is_valid name then some (λ c. record c { inbox_table_name = name }) else none

unfoldable pub with_stuck_publishing_threshold : ℤ → Option (Config → Config)
with_stuck_publishing_threshold threshold =
    some (λ c. record c { stuck_publishing_threshold = threshold })

abbrev pub applied_to : Config → List (Config → Config) → Config
applied_to c [] = c
applied_to c (opt ∷ opts) = applied_to (opt c) opts

unfoldable pub apply_options : List (Config → Config) → Config
apply_options opts = applied_to default_config opts

pub record OutboxRepositoryFields (C : Type 0) : Type 0 where
  pub pool : C
  pub q : C
  pub table_name : Text
  pub backoff_base : ℤ
  pub backoff_max : ℤ
  pub stuck_publishing_threshold : ℤ

pub record InboxRepositoryFields (C : Type 0) : Type 0 where
  pub pool : C
  pub tx : Option C
  pub table_name : Text

module _ {C : Type 0} where
  abbrev pub outbox_fields : C → Config → OutboxRepositoryFields C
  outbox_fields pool c = record {
    pool = pool;
    q = pool;
    table_name = c.outbox_table_name;
    backoff_base = c.requeue_backoff_base;
    backoff_max = c.requeue_backoff_max;
    stuck_publishing_threshold = c.stuck_publishing_threshold;
  }

  unfoldable pub new_outbox_repository :
      C → List (Config → Config) → Option (OutboxRepositoryFields C)
  new_outbox_repository pool opts =
      let cfg = apply_options opts in
      if is_valid cfg.outbox_table_name then some (outbox_fields pool cfg) else none

  abbrev pub inbox_fields : C → Config → InboxRepositoryFields C
  inbox_fields pool c = record { pool = pool; tx = none; table_name = c.inbox_table_name }

  unfoldable pub new_inbox_repository :
      C → List (Config → Config) → Option (InboxRepositoryFields C)
  new_inbox_repository pool opts =
      let cfg = apply_options opts in
      if is_valid cfg.inbox_table_name then some (inbox_fields pool cfg) else none

  unfoldable pub outbox_with_tx : C → OutboxRepositoryFields C → OutboxRepositoryFields C
  outbox_with_tx tx r = record r { q = tx }

  unfoldable pub inbox_with_tx : C → InboxRepositoryFields C → InboxRepositoryFields C
  inbox_with_tx tx r = record r { tx = some tx }
