-- ===== src/Gorm/Config.antt =====
-- contrib/gorm/repo.go and contrib/gorm/inbox_repo.go: the constructors and `WithTx`. The options of contrib/gorm/config.go are
-- those of Pgx/Config.antt, function for function; what is built holds one connection only.
use o4x.Prelude.{
  ◌≡◌, ◌⊎◌, refl, inl, inr, Option, some, none, List, Text, if◌then◌else◌, Bool-cases,
}
use o4x.Core.Int64.{ℤ}
use o4x.Pgx.Config.{Config, is_valid, apply_options}
use o4x.Pgx.Config as PgxConfig

pub record OutboxSettings (C : Type 0) : Type 0 where
  pub db : C
  pub table_name : Text
  pub backoff_base : ℤ
  pub backoff_max : ℤ
  pub stuck_publishing_threshold : ℤ

pub record InboxSettings (C : Type 0) : Type 0 where
  pub db : C
  pub table_name : Text

module _ {C : Type 0} where
  abbrev pub outbox_settings : C → Config → OutboxSettings C
  outbox_settings db c = record {
    db = db;
    table_name = c.outbox_table_name;
    backoff_base = c.requeue_backoff_base;
    backoff_max = c.requeue_backoff_max;
    stuck_publishing_threshold = c.stuck_publishing_threshold;
  }

  unfoldable pub new_outbox_repository : C → List (Config → Config) → Option (OutboxSettings C)
  new_outbox_repository db opts =
      let cfg = apply_options opts in
      if is_valid cfg.outbox_table_name then some (outbox_settings db cfg) else none

  unfoldable pub new_inbox_repository : C → List (Config → Config) → Option (InboxSettings C)
  new_inbox_repository db opts =
      let cfg = apply_options opts in
      if is_valid cfg.inbox_table_name
      then some (record { db = db; table_name = cfg.inbox_table_name })
      else none

  unfoldable pub outbox_with_tx : C → OutboxSettings C → OutboxSettings C
  outbox_with_tx tx r = record r { db = tx }

  unfoldable pub inbox_with_tx : C → InboxSettings C → InboxSettings C
  inbox_with_tx tx r = record r { db = tx }

  -- A repository on gorm is built exactly if the one on pgx is, with the same table and the same settings.
  pub new_outbox_repository-pgx :
      (db : C) (opts : List (Config → Config))
      → ((new_outbox_repository db opts ≡ none) × (PgxConfig.new_outbox_repository db opts ≡ none))
        ⊎ ((r : OutboxSettings C) × (new_outbox_repository db opts ≡ some r)
            × (PgxConfig.new_outbox_repository db opts
                ≡ some (record {
                  pool = db;
                  q = db;
                  table_name = r.table_name;
                  backoff_base = r.backoff_base;
                  backoff_max = r.backoff_max;
                  stuck_publishing_threshold = r.stuck_publishing_threshold;
                })))
  unfolding new_outbox_repository PgxConfig.new_outbox_repository
  new_outbox_repository-pgx db opts =
      elim (Bool-cases (is_valid (apply_options opts).outbox_table_name)) [
        | inl e ↦ inr (outbox_settings db (apply_options opts), rw e refl, rw e refl)
        | inr e ↦ inl (rw e refl, rw e refl)
      ]
