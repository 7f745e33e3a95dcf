-- ===== src/Gorm/InboxSame.antt =====
-- contrib/gorm/inbox_repo.go and contrib/pgx/inbox_repo.go: the two inboxes do the same.
use o4x.Prelude.{ℕ, ◌≡◌, refl, ap, ◌∙◌, Bool, List, [], ◌∷◌, Text, codes, ltb, tally, any_of, arith}
use o4x.Core.Errors.{ok}
use o4x.Core.Inbox.{ConsumerInbox}
use o4x.Pgx.Calls.{Link, up, refused, dropped, answered}
use o4x.Pgx.Inbox
use o4x.Pgx.Inbox.{
  InboxTable, InboxCall, InboxDatabase, inbox_call, inbox_query, same_event, in_context, only_error,
  with_found, context, error_of, insert_completion,
}
use o4x.Pgx.InboxKeys.{IsUnique}
use o4x.Gorm.Orm.{Orm, IsOrm}
use o4x.Gorm.Inbox.{
  is_processed, complete, get_by_event_id, delete_inbox_older_than, above_zero, with_above_zero,
  rows_added, inserted,
}

tally-any_of : {A : Type 0} (p : A → Bool) (xs : List A) → ltb 0 (tally p xs) ≡ any_of p xs
tally-any_of p [] = refl
tally-any_of p (x ∷ xs) = ground (arith, tally-any_of p xs)

counted :
    (message : Text) (l : Link) (t : InboxTable) (p : ConsumerInbox → Bool)
    → context message (above_zero (answered t l (ok (t, tally p t))).1)
      ≡ context message (answered t l (ok (t, any_of p t))).1
counted message up t p = ap ok (tally-any_of p t)
counted message (refused e) t p = refl
counted message (dropped e) t p = refl

module _ {A B : Type 0} (a : A) (b : B) where
  same_table :
      (l : Link) (t t' : InboxTable) → (answered t l (ok (t', a))).0 ≡ (answered t l (ok (t', b))).0
  same_table up t t' = refl
  same_table (refused e) t t' = refl
  same_table (dropped e) t t' = refl

  same_error :
      (message : Text) (l : Link) (t t' : InboxTable)
      → error_of (context message (answered t l (ok (t', a))).1)
        ≡ error_of (context message (answered t l (ok (t', b))).1)
  same_error message up t t' = refl
  same_error message (refused e) t t' = refl
  same_error message (dropped e) t t' = refl

module _ (orm : Orm ConsumerInbox InboxCall InboxDatabase)
    (laws : IsOrm orm (λ db. db.inbox) (λ A. inbox_query {A = A})) where
  -- On a table without duplicates, and by what gorm documents of its calls, each method of the inbox on gorm answers
  -- and changes what the method on pgx does, errors included.
  pub gorm_inbox-pgx_inbox :
      (c e : Text) (age : ℕ) (db : InboxDatabase)
      → IsUnique db.inbox
      → (is_processed orm c e db ≡ Inbox.is_processed c e db)
        × (complete orm c e db ≡ Inbox.complete c e db)
        × (get_by_event_id orm c e db ≡ Inbox.get_by_event_id c e db)
        × (delete_inbox_older_than orm age db ≡ Inbox.delete_inbox_older_than age db)
  unfolding is_processed complete get_by_event_id delete_inbox_older_than Inbox.is_processed
      Inbox.complete Inbox.get_by_event_id Inbox.delete_inbox_older_than
  gorm_inbox-pgx_inbox c e age db u = (
    ap (λ x. in_context (codes "failed to check inbox record: ") (with_above_zero x))
          (laws.count_law (same_event c e) db)
        ∙ asked c e db,
    ap (λ x. only_error (in_context (codes "failed to insert inbox completion record: ") x))
          (laws.exec_law _ db)
        ∙ completed c e db,
    ap with_found (laws.first_law (same_event c e) db (u.once c e)),
    ap (in_context (codes "failed to delete old inbox records: ")) (laws.exec_law _ db),
  )
    where
      asked :
          (c e : Text) (db : InboxDatabase)
          → in_context
              (codes "failed to check inbox record: ")
              (with_above_zero (inbox_query (λ call t. ok (t, tally (same_event c e) t)) db))
            ≡ Inbox.is_processed c e db
      asked c e db =
          rw
            (
              same_table (tally (same_event c e) db.inbox) (any_of (same_event c e) db.inbox)
                  (inbox_call db).link db.inbox db.inbox,
              counted (codes "failed to check inbox record: ") (inbox_call db).link db.inbox
                  (same_event c e),
            )
            refl

      completed :
          (c e : Text) (db : InboxDatabase)
          → only_error (
              in_context
                (codes "failed to insert inbox completion record: ")
                (inbox_query (inserted c e) db))
            ≡ Inbox.complete c e db
      completed c e db =
          rw
            (
              same_table (rows_added c e (inbox_call db) db.inbox) tt (inbox_call db).link db.inbox
                  (insert_completion (inbox_call db) c e db.inbox),
              same_error (rows_added c e (inbox_call db) db.inbox) tt
                  (codes "failed to insert inbox completion record: ") (inbox_call db).link db.inbox
                  (insert_completion (inbox_call db) c e db.inbox),
            )
            refl
