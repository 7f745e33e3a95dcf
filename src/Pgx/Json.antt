-- ===== src/Pgx/Json.antt =====
-- contrib/pgx/repo.go: the helpers that insert a Go value as JSON. `json.Marshal` of the standard library is a parameter at the
-- types of the payload and of the metadata; a nil metadata is `none`.
use o4x.Prelude.{ℕ, Option, none, some, Text}
use o4x.Core.Errors.{Result, ok, err}
use o4x.Core.Model.{Outbox, OutboxInsertParams}
use o4x.Pgx.Calls.{Database}
use o4x.Pgx.Outbox.{insert}

module _ {P M : Type 0} (marshal : P → Result Text) (marshal_metadata : M → Result Text) where
  abbrev pub metadata_bytes : Option M → Result (Option Text)
  metadata_bytes none = ok none
  metadata_bytes (some metadata) = elim (marshal_metadata metadata) [
    | err e ↦ err e
    | ok bytes ↦ ok (some bytes)
  ]

  -- The parameters that are inserted, unless something cannot be marshalled.
  unfoldable pub json_params : Text → P → Option M → Text → ℕ → Result OutboxInsertParams
  json_params event_type payload metadata idempotency_key max_retries = elim (marshal payload) [
    | err e ↦ err e
    | ok bytes ↦ elim (metadata_bytes metadata) [
      | err e ↦ err e
      | ok metadata_bytes ↦ ok (record {
        event_type = event_type;
        payload = bytes;
        metadata = metadata_bytes;
        idempotency_key = idempotency_key;
        max_attempts = max_retries;
      })
    ]
  ]

  unfoldable pub insert_outbox_json_with_metadata :
      Text → P → Option M → Text → ℕ → Database → Database × Result Outbox
  insert_outbox_json_with_metadata event_type payload metadata idempotency_key max_retries db =
      elim (json_params event_type payload metadata idempotency_key max_retries) [
        | err e ↦ (db, err e)
        | ok params ↦ insert params db
      ]

  unfoldable pub insert_outbox_json : Text → P → Text → ℕ → Database → Database × Result Outbox
  insert_outbox_json event_type payload idempotency_key max_retries db =
      insert_outbox_json_with_metadata event_type payload none idempotency_key max_retries db
