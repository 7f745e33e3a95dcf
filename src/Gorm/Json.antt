-- ===== src/Gorm/Json.antt =====
-- contrib/gorm/repo.go: the helpers that insert a Go value as JSON, as in Pgx/Json.antt.
use o4x.Prelude.{ℕ, Option, none, Text}
use o4x.Core.Errors.{Result, ok, err}
use o4x.Core.Model.{Outbox}
use o4x.Pgx.Calls.{Database}
use o4x.Pgx.Json.{json_params}
use o4x.Gorm.Outbox.{Creator, insert}

module _ {P M : Type 0} (marshal : P → Result Text) (marshal_metadata : M → Result Text)
    (creator : Creator) where
  unfoldable pub insert_outbox_json_with_metadata :
      Text → P → Option M → Text → ℕ → Database → Database × Result Outbox
  insert_outbox_json_with_metadata event_type payload metadata idempotency_key max_retries db =
      elim (json_params marshal marshal_metadata event_type payload metadata idempotency_key
        max_retries) [ err e ↦ (db, err e) | ok params ↦ insert creator params db ]

  unfoldable pub insert_outbox_json : Text → P → Text → ℕ → Database → Database × Result Outbox
  insert_outbox_json event_type payload idempotency_key max_retries db =
      insert_outbox_json_with_metadata event_type payload none idempotency_key max_retries db
