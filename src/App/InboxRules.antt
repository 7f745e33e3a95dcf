-- ===== src/App/InboxRules.antt =====
-- contrib/pgx/inbox_repo.go: what its calls ensure in a transaction of the example's handlers.
use o4x.Prelude.{ℕ, suc, ◌≡◌, refl, Bool, Text, codes, any_of}
use o4x.Core.Errors.{ok}
use o4x.Pgx.Calls.{Call, Link, up, refused, dropped, answered}
use o4x.Pgx.Inbox.{
  InboxCall, context, error_of, is_processed, complete, same_event, insert_completion,
}
use o4x.App.Store.{Tables, AppDatabase}
use o4x.App.Actions.{app_call, inbox_of, with_inbox}
use o4x.App.Actions.Rules.{Post, Ensures, InTransaction, Leaving}
use o4x.App.Handlers.{of_error, is_processed_here, complete_here}

abbrev pub known : Text → Text → Tables → Bool
known name event_id t = any_of (same_event name event_id) t.inbox

-- Tables with `P`, and then the event completed in the inbox.
pub record Completed (P : Tables → Type 0) (name event_id : Text) (t : Tables) : Type 0 where
  pub earlier : Tables
  pub prior : P earlier
  pub call : InboxCall
  pub rest : t ≡ record earlier { inbox = insert_completion call name event_id earlier.inbox }

module _ {server : ℕ → Call} {before : Tables} {P F : Tables → Type 0} (name event_id : Text) where
  pub Ensures-is_processed_here :
      Ensures
        (InTransaction server before P)
        (is_processed_here name event_id)
        (λ b. InTransaction server before (λ t. P t × (known name event_id t ≡ b)))
        (Leaving server before F)
  unfolding is_processed_here is_processed
  Ensures-is_processed_here = record { at = λ db p. by db p (app_call db).link }
    where
      by :
          (db : AppDatabase)
          → InTransaction server before P db
          → (l : Link)
          → Post {A = Bool}
              (λ b. InTransaction server before (λ t. P t × (known name event_id t ≡ b)))
              (Leaving server before F)
              (with_inbox db (
                let (t, r) =
                  answered db.tables.inbox l
                    (ok (db.tables.inbox, known name event_id db.tables)) in
                (
                  record (inbox_of db) { inbox = t; calls = suc db.calls },
                  context (codes "failed to check inbox record: ") r,
                )))
      by db p up = record { opened = p.opened; seen = (p.seen, refl) }
      by db p (refused c) = Leaving.unfinished (record { opened = p.opened; seen = tt })
      by db p (dropped c) = Leaving.unfinished (record { opened = p.opened; seen = tt })

  pub Ensures-complete_here :
      Ensures
        (InTransaction server before P)
        (complete_here name event_id)
        (λ _. InTransaction server before (Completed P name event_id))
        (Leaving server before F)
  unfolding complete_here complete
  Ensures-complete_here = record { at = λ db p. by db p (app_call db).link }
    where
      by :
          (db : AppDatabase)
          → InTransaction server before P db
          → (l : Link)
          → Post {A = Unit {0}}
              (λ _. InTransaction server before (Completed P name event_id))
              (Leaving server before F)
              (with_inbox db (
                of_error (
                  let call : InboxCall = record {
                    link = (app_call db).link;
                    clock = (app_call db).clock;
                  } in
                  let (t, r) =
                    answered {A = Unit {0}} db.tables.inbox l
                      (ok (insert_completion call name event_id db.tables.inbox, tt)) in
                  (
                    record (inbox_of db) { inbox = t; calls = suc db.calls },
                    error_of (context (codes "failed to insert inbox completion record: ") r),
                  ))))
      by db p up = record {
        opened = p.opened;
        seen = record { earlier = db.tables; prior = p.seen; call = _; rest = refl };
      }
      by db p (refused c) = Leaving.unfinished (record { opened = p.opened; seen = tt })
      by db p (dropped c) = Leaving.unfinished (record { opened = p.opened; seen = tt })
