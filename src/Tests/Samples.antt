-- ===== src/Tests/Samples.antt =====
-- Sample data: a server that answers every call, a few messages, and a table that holds them.
use o4x.Prelude.{◌+◌, length, map, ℕ, suc, ◌*◌, ◌/◌, false, none, some, [], ◌∷◌, codes}
use o4x.Core.Errors.{ok, nil, external}
use o4x.Core.Model.{Outbox, OutboxInsertParams, enqueued}
use o4x.Core.Repository.{Publisher}
use o4x.Core.Worker.{World}
use o4x.Sqs.Messages.{SqsClient}
use o4x.Pgx.Calls.{Call, Database, up}
use o4x.System.OneMessage.{Setup}

-- The call number `n`, a second after the one before.
abbrev pub steady : ℕ → Call
steady n = record {
  link = up;
  clock = 1000000 * suc n;
  locked = λ j. false;
  jitter = λ j d. d / 2;
  arrange = λ rows. rows;
  new_id = n ∷ [];
  jsonb = λ p. some p;
}

abbrev pub order_created : OutboxInsertParams
order_created = record {
  event_type = codes "order.created";
  payload = codes "{}";
  metadata = none;
  idempotency_key = codes "order-1";
  max_attempts = 3;
}

abbrev pub no_rows : Database
no_rows = record {
  table = [];
  backoff_base = 1000000;
  backoff_max = 3600000000;
  stuck_publishing_threshold = 0;
  calls = 0;
  schedule = steady;
}

-- The row that `order_created` becomes.
abbrev pub order_row : Outbox
order_row = record {
  id = 0 ∷ [];
  event_type = codes "order.created";
  payload = codes "{}";
  metadata = none;
  idempotency_key = codes "order-1";
  status = enqueued;
  error_message = none;
  attempt_count = 1;
  max_attempts = 3;
  next_retry_at = none;
  created_at = 1000000;
  updated_at = 1000000;
}

abbrev pub one_row : Database
one_row = record no_rows { table = order_row ∷ []; calls = 1 }

-- A broker that counts the messages that it accepts, and one that is down.
abbrev pub accepting : Publisher ℕ
accepting = record { publish = λ msg n. (suc n, nil) }

abbrev pub down : Publisher ℕ
down = record { publish = λ msg n. (n, external (codes "connection refused")) }

abbrev pub setup_with : Publisher ℕ → Setup ℕ
setup_with p = record {
  publisher = p;
  hooks = none;
  replace_all = λ pattern src repl. src;
  poll_interval = 100;
  max_poll_interval = 3200;
}

abbrev pub world_of : Database → World Database ℕ
world_of db = record { store = db; broker = 0; notes = []; processed = 0 }

-- A queue that counts the messages that it takes.
abbrev pub taking : SqsClient ℕ
taking = record {
  send_message = λ input n. (suc n, nil);
  send_message_batch = λ url entries n. (
    n + length entries,
    ok (record { successful = map (λ e. (e.id, codes "m")) entries; failed = [] }),
  );
}
