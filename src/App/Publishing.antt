-- ===== src/App/Publishing.antt =====
-- examples/app/internal/service: what the parts that the services share ensure: the transaction, and the message in it.
use mathlib.Core.Path.{subst}
use o4x.Prelude.{ℕ, ◌≡◌, refl, Text, codes}
use o4x.Pgx.Calls.{Call}
use o4x.Core.Errors.{Result, ok, err}
use o4x.Core.Model.{Outbox, OutboxInsertParams}
use o4x.Pgx.Outbox.{insert}
use o4x.Pgx.Appending.{Appended, insert-Appended}
use o4x.App.Store.{Tables, AppDatabase}
use o4x.App.Actions.{
  Action, pure, lift, ◌>>◌, annotate, begin, commit, rollback, outbox_of, with_outbox,
}
use o4x.App.Actions.Rules.{
  Post, Ensures, InTransaction, Outside, Leaving, Undone, Idle, Ensures-pure, Ensures-lift,
  Ensures-annotate, Ensures-bind, Ensures-deferring_rollback,
}
use o4x.App.Actions.Transactions.{Ensures-begin, Ensures-commit, rollback-Leaving}
use o4x.App.Services.{insert_message, message_params, in_transaction, publish_and_commit}

-- Tables with `P`, and behind them one new row in the outbox.
pub record Inserted (server : ℕ → Call) (P : Tables → Type 0) (params : OutboxInsertParams)
    (t : Tables) : Type 0 where
  pub earlier : Tables
  pub prior : P earlier
  pub message : Outbox
  pub row : Appended server params message earlier.outbox t.outbox
  pub rest : t ≡ record earlier { outbox = t.outbox }

-- The inserted message has the payload that the event was marshalled to.
pub record Published (server : ℕ → Call) (P : Tables → Type 0) (marshalled : Result Text)
    (event_type key : Text) (max_attempts : ℕ) (t : Tables) : Type 0 where
  pub payload : Text
  pub bytes : marshalled ≡ ok payload
  pub inserted : Inserted server P (message_params event_type payload key max_attempts) t

module _ {server : ℕ → Call} {before : Tables} {F : Tables → Type 0} where
  pub Ensures-insert_message :
      {P : Tables → Type 0} (params : OutboxInsertParams)
      → Ensures
          (InTransaction server before P)
          (insert_message params)
          (λ _. InTransaction server before (Inserted server P params))
          (Leaving server before F)
  unfolding insert_message
  Ensures-insert_message {P} params = record {
    at = λ db p. by db p (insert params (outbox_of db)).1 refl;
  }
    where
      by :
          (db : AppDatabase)
          → InTransaction server before P db
          → (r : Result Outbox) → (insert params (outbox_of db)).1 ≡ r
          → Post
              (λ _. InTransaction server before (Inserted server P params))
              (Leaving server before F)
              (with_outbox db ((insert params (outbox_of db)).0, r))
      by db p (ok r) e = record {
        opened = p.opened;
        seen = record {
          earlier = db.tables;
          prior = p.seen;
          message = r;
          row =
              subst
                (λ s. Appended s params r db.tables.outbox (insert params (outbox_of db)).0.table)
                p.opened.3 (insert-Appended params (outbox_of db) r e);
          rest = refl;
        };
      }
      by db p (err c) e = Leaving.unfinished (record { opened = p.opened; seen = tt })

  pub Ensures-in_transaction :
      {A : Type 0} {Q Q' : A → AppDatabase → Type 0} (m : Action A)
      → Ensures (InTransaction server before (λ t. t ≡ before)) m Q (Leaving server before F)
      → ((a : A) (db : AppDatabase) → Q a db → Q' a (rollback db))
      → Ensures (Idle server before) (in_transaction m) Q' (Outside (Undone before F))
  Ensures-in_transaction m h q =
      Ensures-bind _ _
        (Ensures-annotate (codes "failed to begin transaction: ") begin (Ensures-begin {F = F}))
        (λ _. Ensures-deferring_rollback m h q (rollback-Leaving server before F))

pub Ensures-publish_and_commit :
    {A : Type 0} {server : ℕ → Call} {before : Tables} {P : Tables → Type 0}
    (marshalled : Result Text) (event_type key : Text) (max_attempts : ℕ) (answer : A)
    → Ensures
        (InTransaction server before P)
        (publish_and_commit marshalled event_type key max_attempts answer)
        (λ a db.
          (a ≡ answer) × Outside (Published server P marshalled event_type key max_attempts) db)
        (Leaving server before (Published server P marshalled event_type key max_attempts))
Ensures-publish_and_commit {A} {server} {before} {P} marshalled event_type key max_attempts answer =
    Ensures-bind _ _
      (Ensures-annotate (codes "failed to marshal event: ") (lift marshalled) (
        Ensures-lift
          {Q = λ payload db. (marshalled ≡ ok payload) × InTransaction server before P db}
          marshalled (λ payload db e p. (e, p))
          (λ db p. Leaving.unfinished (record { opened = p.opened; seen = tt }))))
      (λ payload. record { at = λ db h. (rest payload h.0).at db h.1 })
  where
    F : Tables → Type 0
    F = Published server P marshalled event_type key max_attempts

    rest :
        (payload : Text)
        → marshalled ≡ ok payload
        → Ensures
            (InTransaction server before P)
            (do
              annotate
                  (codes "failed to insert outbox message: ")
                  (insert_message (message_params event_type payload key max_attempts))
              annotate (codes "failed to commit transaction: ") commit
              pure answer)
            (λ a db. (a ≡ answer) × Outside F db)
            (Leaving server before F)
    rest payload e =
        Ensures-bind _ _
          (Ensures-annotate (codes "failed to insert outbox message: ") _
            (Ensures-insert_message (message_params event_type payload key max_attempts)))
          (λ _.
            Ensures-bind _ _
              (Ensures-annotate (codes "failed to commit transaction: ") commit (record {
                at = λ db p. Ensures-commit.at db (record {
                  opened = p.opened;
                  seen = record { payload = payload; bytes = e; inserted = p.seen };
                });
              }))
              (λ _. Ensures-pure answer (λ db p. (refl, p))))
