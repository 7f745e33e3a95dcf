-- ===== src/App/Effects.antt =====
-- examples/app/internal/service: what a service does that changes one table and publishes an event.
use o4x.Prelude.{ℕ, ◌≡◌, sym, ap, ◌∙◌, none, Text}
use o4x.Pgx.Calls.{Call}
use o4x.Core.Errors.{Result, ok}
use o4x.Core.Model.{Outbox}
use o4x.Pgx.Appending.{Appended}
use o4x.App.Store.{Tables, AppDatabase}
use o4x.App.Actions.{Action, annotate, ◌>>◌}
use o4x.App.Actions.Rules.{Ensures, InTransaction, Leaving, Ensures-annotate, Ensures-bind}
use o4x.App.Services.{message_params, in_transaction, publish_and_commit}
use o4x.App.Publishing.{Published, Ensures-publish_and_commit}
use o4x.App.Outcome.{Outcome, in_transaction-Outcome}

-- What the service does to the tables, all at once: a change that `allowed` permits, and one message for the
-- event, with its payload.
pub record Effect (server : ℕ → Call) (allowed : Tables → Type 0) (change : ℕ → Tables → Tables)
    (marshalled : Result Text) (event_type key : Text) (max_attempts : ℕ) (t t' : Tables)
    : Type 0 where
  pub permitted : allowed t
  pub now : ℕ
  pub payload : Text
  pub bytes : marshalled ≡ ok payload
  pub message : Outbox
  pub message_row :
      Appended server
        (message_params event_type payload key max_attempts)
        message
        t.outbox
        t'.outbox
  pub rest : t' ≡ record (change now t) { outbox = t'.outbox }

-- The tables after the change.
abbrev pub Changed : (Tables → Type 0) → (ℕ → Tables → Tables) → Tables → Tables → Type 0
Changed allowed change before t = allowed before × ((now : ℕ) × (t ≡ change now before))

module _ (server : ℕ → Call) (allowed : Tables → Type 0) (change : ℕ → Tables → Tables)
    (outbox : (now : ℕ) (t : Tables) → (change now t).outbox ≡ t.outbox) (marshalled : Result Text)
    (event_type key : Text) (max_attempts : ℕ) (before : Tables) where
  abbrev Finished : Tables → Type 0
  Finished = Published server (Changed allowed change before) marshalled event_type key max_attempts

  Finished-Effect :
      (t : Tables)
      → Finished t
      → Effect server allowed change marshalled event_type key max_attempts before t
  Finished-Effect t d =
      let (permitted, (now, same)) = d.inserted.prior in
      let beside = λ (x : Tables). record x { outbox = t.outbox } in
      record {
        permitted = permitted;
        now = now;
        payload = d.payload;
        bytes = d.bytes;
        message = d.inserted.message;
        message_row = rw (sym (ap (λ x. x.outbox) same ∙ outbox now before)) d.inserted.row;
        rest = ap beside d.inserted.rest ∙ ap beside same;
      }

  pub service-Outcome :
      {A : Type 0} (s : Text) (m : Action Unit) (answer : A)
      → Ensures
          (InTransaction server before (λ t. t ≡ before))
          m
          (λ _. InTransaction server before (Changed allowed change before))
          (Leaving server before Finished)
      → (db : AppDatabase) → db.transaction ≡ none
      → db.tables ≡ before
      → db.schedule ≡ server
      → Outcome answer before
          (Effect server allowed change marshalled event_type key max_attempts before)
          (in_transaction
            (annotate s m >> publish_and_commit marshalled event_type key max_attempts answer)
            db)
  service-Outcome s m answer h =
      in_transaction-Outcome server answer before Finished _ Finished-Effect _ (
        Ensures-bind _ _ (Ensures-annotate s m h)
          (λ _. Ensures-publish_and_commit marshalled event_type key max_attempts answer))
