-- ===== src/App/Actions.antt =====
-- examples/app: calls of the database that may fail, one after another, as the services and the handlers chain them:
-- statements, `pool.Begin`, `tx.Commit` and the deferred `tx.Rollback`. The transactions of several
-- processes come one after another.
pub mod Rules
pub mod Transactions
use o4x.Prelude.{◌≡◌, ◌⊎◌, refl, inl, inr, ℕ, suc, Bool, Option, none, some, [], Text}
use o4x.Core.Errors.{GoError, external, wrapped, Result, ok, err}
use o4x.Pgx.Calls.{Call, Database, Link, answered}
use o4x.Pgx.Inbox.{InboxDatabase}
use o4x.App.Store.{Tables, Transaction, AppDatabase}

abbrev pub Action : Type 0 → Type 0
Action A = AppDatabase → AppDatabase × Result A

module _ {A : Type 0} where
  unfoldable pub pure : A → Action A
  pure a db = (db, ok a)

  unfoldable pub lift : Result A → Action A
  lift r db = (db, r)

module _ {A B : Type 0} where
  abbrev pub continue : (A → Action B) → AppDatabase × Result A → AppDatabase × Result B
  continue f (db, ok a) = f a db
  continue f (db, err e) = (db, err e)

  infixl 10 ◌>>=◌ ◌>>◌
  -- `if err != nil { return err }` between two calls.
  unfoldable pub ◌>>=◌ : Action A → (A → Action B) → Action B
  ◌>>=◌ m f db = continue f (m db)

  abbrev pub ◌>>◌ : Action A → Action B → Action B
  m >> n = m >>= λ _. n

module _ {A : Type 0} where
  abbrev pub annotated : Text → AppDatabase × Result A → AppDatabase × Result A
  annotated message (db, ok a) = (db, ok a)
  annotated message (db, err e) = (db, err (wrapped message e []))

  -- `fmt.Errorf("…: %w", err)` around the error of a call.
  unfoldable pub annotate : Text → Action A → Action A
  annotate message m db = annotated message (m db)

abbrev pub app_call : AppDatabase → Call
app_call db = db.schedule db.calls

-- `NOW()`: the start of the transaction.
abbrev pub now_of : AppDatabase → ℕ
now_of db = elim db.transaction [ none ↦ (app_call db).clock | some tx ↦ tx.now ]

-- The tables as the other connections of the pool see them.
abbrev pub committed : AppDatabase → Tables
committed db = elim db.transaction [ none ↦ db.tables | some tx ↦ tx.before ]

module _ {A : Type 0} where
  -- One statement, which gives new tables and an answer, or an error of the server.
  unfoldable pub exec : (AppDatabase → Tables → Result (Tables × A)) → Action A
  exec stmt db =
      let (t, r) = answered db.tables (app_call db).link (stmt db db.tables) in
      (record db { tables = t; calls = suc db.calls }, r)

  abbrev pub beside_nothing : Result A → Result {0} (Unit × A)
  beside_nothing (ok a) = ok (tt, a)
  beside_nothing (err e) = err e

  -- A query on the pool, outside of the open transaction.
  unfoldable pub query_pool : (Tables → Result A) → Action A
  query_pool f db =
      let (_, r) = answered tt (app_call db).link (beside_nothing (f (committed db))) in
      (record db { calls = suc db.calls }, r)

-- `pool.Begin`
unfoldable pub begin : Action Unit
begin db =
    let started = some (record { before = db.tables; now = (app_call db).clock }) in
    elim (app_call db).link [
      | Link.up ↦ (record db { transaction = started; calls = suc db.calls }, ok tt)
      | Link.refused e ↦ (record db { calls = suc db.calls }, err e)
      | Link.dropped e ↦ (record db { calls = suc db.calls }, err e)
    ]

-- `tx.Commit`: when its answer is lost, the transaction is committed all the same.
unfoldable pub commit : Action Unit
commit db = elim (app_call db).link [
  | Link.up ↦ (record db { transaction = none; calls = suc db.calls }, ok tt)
  | Link.refused e ↦ (record db { calls = suc db.calls }, err e)
  | Link.dropped e ↦ (record db { transaction = none; calls = suc db.calls }, err e)
]

-- `tx.Rollback`: nothing after a commit. Where the call does not reach the server, the connection is
-- closed, and the server rolls back.
unfoldable pub rollback : AppDatabase → AppDatabase
rollback db = elim db.transaction [
  | none ↦ db
  | some tx ↦ record db { tables = tx.before; transaction = none; calls = suc db.calls }
]

module _ {A : Type 0} where
  abbrev pub rolled_back : AppDatabase × Result A → AppDatabase × Result A
  rolled_back (db, r) = (rollback db, r)

  -- `defer tx.Rollback(ctx)` before the rest of the function.
  unfoldable pub deferring_rollback : Action A → Action A
  deferring_rollback m db = rolled_back (m db)

-- `s.outboxRepo.WithTx(tx)`: the outbox repository on the tables of the transaction.
abbrev pub outbox_of : AppDatabase → Database
outbox_of db = record {
  table = db.tables.outbox;
  backoff_base = db.backoff_base;
  backoff_max = db.backoff_max;
  stuck_publishing_threshold = db.stuck_publishing_threshold;
  calls = db.calls;
  schedule = db.schedule;
}

abbrev pub with_outbox : {A : Type 0} → AppDatabase → Database × Result A → AppDatabase × Result A
with_outbox db (outbox, r) =
    (record db { tables = record db.tables { outbox = outbox.table }; calls = outbox.calls }, r)

-- `h.inbox.WithTx(tx)`, and the inbox of the pool where no transaction is open.
abbrev pub inbox_of : AppDatabase → InboxDatabase
inbox_of db = record {
  inbox = db.tables.inbox;
  calls = db.calls;
  schedule = λ n. record { link = (db.schedule n).link; clock = (db.schedule n).clock };
}

abbrev pub with_inbox :
    {A : Type 0} → AppDatabase → InboxDatabase × Result A → AppDatabase × Result A
with_inbox db (inbox, r) =
    (record db { tables = record db.tables { inbox = inbox.inbox }; calls = inbox.calls }, r)
