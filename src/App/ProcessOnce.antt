-- ===== src/App/ProcessOnce.antt =====
-- examples/app/internal/consumer: what a handler that processes an event in one transaction ensures.
use o4x.Prelude.{ℕ, ◌≡◌, refl, sym, ap, ◌∙◌, Bool, true, false, none, Text, codes, if◌then◌else◌}
use o4x.Pgx.Calls.{Call}
use o4x.Core.Errors.{GoError, Result, ok, err}
use o4x.App.Store.{Tables, AppDatabase}
use o4x.App.Actions.{pure, ◌>>◌, annotate, exec, commit, rollback}
use o4x.App.Actions.Rules.{
  Post, Ensures, InTransaction, Outside, Leaving, Undone, Idle, Ensures-pure, Ensures-weaken,
  Ensures-annotate, Ensures-bind, Ensures-exec,
}
use o4x.App.Actions.Transactions.{Ensures-commit, rollback-InTransaction, rollback-Outside}
use o4x.App.Publishing.{Ensures-in_transaction}
use o4x.App.Handlers.{complete_here, process_once}
use o4x.App.InboxRules.{known, Completed, Ensures-is_processed_here, Ensures-complete_here}

-- How a handler ends: the event was known, and nothing has changed; it is processed, with the effects `F`; nothing has
-- changed, and there is an error; or the answer of the commit is lost.
pub data Handled (name event_id : Text) (before : Tables) (F : Tables → Type 0) (after : Tables)
    (r : Result (Unit {0})) : Type 0 where
  repeated :
      known name event_id before ≡ true
      → after ≡ before
      → r ≡ ok tt
      → Handled name event_id before F after r
  processed : F after → r ≡ ok tt → Handled name event_id before F after r
  not_processed :
      (e : GoError) → r ≡ err e → after ≡ before → Handled name event_id before F after r
  unanswered : (e : GoError) → r ≡ err e → F after → Handled name event_id before F after r

-- The record is inserted and the event completed, and the event was not known.
pub record Fresh (name event_id : Text) (before : Tables) (R : Tables → Type 0) (t : Tables)
    : Type 0 where
  pub unknown : known name event_id before ≡ false
  pub completed : Completed R name event_id t

data Body (server : ℕ → Call) (name event_id : Text) (before : Tables) (F : Tables → Type 0)
    (db : AppDatabase) : Type 0 where
  unchanged :
      known name event_id before ≡ true
      → InTransaction server before (λ t. t ≡ before) db
      → Body server name event_id before F db
  through : Outside F db → Body server name event_id before F db

data Handling (name event_id : Text) (before : Tables) (F : Tables → Type 0) (t : Tables)
    : Type 0 where
  nothing_new : known name event_id before ≡ true → t ≡ before → Handling name event_id before F t
  effects : F t → Handling name event_id before F t

module _ (server : ℕ → Call) (name event_id failure : Text)
    (insert_record : AppDatabase → Tables → Result (Tables × Unit {0})) (before : Tables)
    (R : Tables → Type 0)
    (records : (db : AppDatabase) (t t' : Tables) (a : Unit {0})
      → t ≡ before
      → insert_record db t ≡ ok (t', a)
      → R t') where
  abbrev F : Tables → Type 0
  F = Fresh name event_id before R

  Ensures-if_known :
      (b : Bool)
      → Ensures
          (InTransaction server before (λ t. (t ≡ before) × (known name event_id t ≡ b)))
          (if b then pure tt else do
            annotate failure (exec insert_record)
            annotate (codes "failed to mark as completed: ") (complete_here name event_id)
            annotate (codes "failed to commit transaction: ") commit)
          (λ _. Body server name event_id before F)
          (Leaving server before F)
  Ensures-if_known true = Ensures-pure tt (λ db p.
      Body.unchanged (ap (known name event_id) (sym p.seen.0) ∙ p.seen.1)
        (record { opened = p.opened; seen = p.seen.0 }))
  Ensures-if_known false =
      Ensures-bind _ _
        (Ensures-annotate _ _ (
          Ensures-exec {Q = λ _ t. (known name event_id before ≡ false) × R t} insert_record
            (λ db t t' a p h. (ap (known name event_id) (sym p.0) ∙ p.1, records db t t' a p.0 h))))
        (λ _.
          Ensures-bind _ _ (Ensures-annotate _ _ (Ensures-complete_here name event_id))
            (λ _. Ensures-annotate _ commit (record { at = λ db p. through_commit db p })))
    where
      through_commit :
          (db : AppDatabase)
          → InTransaction server before
              (Completed (λ t. (known name event_id before ≡ false) × R t) name event_id)
              db
          → Post (λ _. Body server name event_id before F) (Leaving server before F) (commit db)
      through_commit db p =
          (Ensures-weaken {Q' = λ _. Body server name event_id before F} commit
              (Ensures-commit {server = server} {before = before} {F = F}) (λ a d h. Body.through h)
              (λ d h. h)).at
            db
            (record {
              opened = p.opened;
              seen = record {
                unknown = p.seen.prior.0;
                completed = record {
                  earlier = p.seen.earlier;
                  prior = p.seen.prior.1;
                  call = p.seen.call;
                  rest = p.seen.rest;
                };
              };
            })

  rollback-Body :
      (a : Unit {0}) (db : AppDatabase)
      → Body server name event_id before F db
      → Outside (Handling name event_id before F) (rollback db)
  rollback-Body a db (Body.unchanged h p) =
      let r = rollback-InTransaction server before (λ t. t ≡ before) db p in
      record { closed = r.closed; holds = Handling.nothing_new h r.holds }
  rollback-Body a db (Body.through p) =
      let r = rollback-Outside F db p in
      record { closed = r.closed; holds = Handling.effects r.holds }

  Ensures-process_once :
      Ensures
        (Idle server before)
        (process_once name event_id failure insert_record)
        (λ _. Outside (Handling name event_id before F))
        (Outside (Undone before F))
  unfolding process_once
  Ensures-process_once =
      Ensures-in_transaction _
        (Ensures-bind _ _ (Ensures-annotate _ _ (Ensures-is_processed_here name event_id))
          Ensures-if_known)
        rollback-Body

  pub process_once-Handled :
      (db : AppDatabase)
      → db.transaction ≡ none
      → db.tables ≡ before
      → db.schedule ≡ server
      → let (db', r) = process_once name event_id failure insert_record db in
        (db'.transaction ≡ none) × Handled name event_id before F db'.tables r
  process_once-Handled db closed start same =
      by (process_once name event_id failure insert_record db)
        (Ensures-process_once.at db (record { closed = closed; holds = start }, same))
    where
      by :
          (x : AppDatabase × Result (Unit {0}))
          → Post (λ _. Outside (Handling name event_id before F)) (Outside (Undone before F)) x
          → (x.0.transaction ≡ none) × Handled name event_id before F x.0.tables x.1
      by (d, ok a) p = (p.closed, at_ok p.holds)
        where
          at_ok :
              Handling name event_id before F d.tables
              → Handled name event_id before F d.tables (ok a)
          at_ok (Handling.nothing_new h e) = Handled.repeated h e refl
          at_ok (Handling.effects f) = Handled.processed f refl
      by (d, err e) p = (p.closed, at_err p.holds)
        where
          at_err : Undone before F d.tables → Handled name event_id before F d.tables (err e)
          at_err (Undone.same h) = Handled.not_processed e refl h
          at_err (Undone.carried_out f) = Handled.unanswered e refl f
