-- ===== src/App/InboxAnswers.antt =====
-- contrib/pgx/inbox_repo.go as the example's handlers call it.
use o4x.Prelude.{
  ◌≡◌, refl, ap, ◌∙◌, inl, inr, Bool, true, List, [], ◌∷◌, ◌++◌, Text, codes, text_eq_refl, any_of,
  Bool-cases, arith,
}
use o4x.Core.Errors.{GoError, nil, Result, ok, err}
use o4x.Pgx.Calls.{Link, up, refused, dropped, reached, answered, answered-reached}
use o4x.Core.Inbox.{ConsumerInbox}
use o4x.Pgx.Inbox.{
  InboxTable, InboxCall, InboxDatabase, context, error_of, inbox_call, same_event, is_processed,
  complete, insert_completion,
}
use o4x.App.Notifications.{consumer_name}

any_of-append :
    {A : Type 0} (p : A → Bool) (xs : List A) (x : A)
    → any_of p xs ≡ true
    → any_of p (xs ++ x ∷ []) ≡ true
any_of-append p [] x h = absurd (cc)
any_of-append p (y ∷ xs) x h = ground (arith, any_of-append p xs x)

any_of-last :
    {A : Type 0} (p : A → Bool) (xs : List A) (x : A) → p x ≡ true → any_of p (xs ++ x ∷ []) ≡ true
any_of-last p [] x h = rw h refl
any_of-last p (y ∷ xs) x h = ground (arith, any_of-last p xs x h)

any_of-insert_completion :
    (p : ConsumerInbox → Bool) (call : InboxCall) (e : Text) (t : InboxTable)
    → any_of p t ≡ true
    → any_of p (insert_completion call consumer_name e t) ≡ true
unfolding insert_completion
any_of-insert_completion p call e t h = elim (Bool-cases (any_of (same_event consumer_name e) t)) [
  | inl there ↦ rw there h
  | inr absent ↦ rw absent (any_of-append p t _ h)
]

pub insert_completion_known :
    (call : InboxCall) (name e : Text) (t : InboxTable)
    → any_of (same_event name e) (insert_completion call name e t) ≡ true
unfolding insert_completion
insert_completion_known call name e t = elim (Bool-cases (any_of (same_event name e) t)) [
  | inl there ↦ rw (there, there) refl
  | inr absent ↦
      rw absent (any_of-last (same_event name e) t _ (rw (text_eq_refl name, text_eq_refl e) refl))
]

any_of-reached :
    (p : ConsumerInbox → Bool) (l : Link) (t t' : InboxTable)
    → any_of p t ≡ true
    → any_of p t' ≡ true
    → any_of p (reached l t t') ≡ true
any_of-reached p up t t' h k = k
any_of-reached p (refused x) t t' h k = h
any_of-reached p (dropped x) t t' h k = k

pub any_of-complete :
    (p : ConsumerInbox → Bool) (e : Text) (db : InboxDatabase)
    → any_of p db.inbox ≡ true
    → any_of p (complete consumer_name e db).0.inbox ≡ true
unfolding complete
any_of-complete p e db h =
    ap (any_of p) (answered-reached {A = Unit} (inbox_call db).link _ _ _)
    ∙ any_of-reached p (inbox_call db).link _ _ h
        (any_of-insert_completion p (inbox_call db) e db.inbox h)

pub is_processed-inbox :
    (e : Text) (db : InboxDatabase) → (is_processed consumer_name e db).0.inbox ≡ db.inbox
unfolding is_processed
is_processed-inbox e db = answered-reached (inbox_call db).link _ _ _ ∙ same (inbox_call db).link
  where
    same : (l : Link) → reached l db.inbox db.inbox ≡ db.inbox
    same up = refl
    same (refused x) = refl
    same (dropped x) = refl

-- What an answer of `IsProcessed` says of the inbox.
pub data Told (known : Bool) (r : Result Bool) : Type 0 where
  truth : r ≡ ok known → Told known r
  failure : (x : GoError) → r ≡ err x → Told known r

pub is_processed-Told :
    (e : Text) (db : InboxDatabase)
    → Told (any_of (same_event consumer_name e) db.inbox) (is_processed consumer_name e db).1
unfolding is_processed
is_processed-Told e db = by (inbox_call db).link
  where
    by :
        (l : Link)
        → Told (any_of (same_event consumer_name e) db.inbox) (
            context
              (codes "failed to check inbox record: ")
              (answered db.inbox l (ok (db.inbox, any_of (same_event consumer_name e) db.inbox))).1)
    by up = Told.truth refl
    by (refused x) = Told.failure _ refl
    by (dropped x) = Told.failure _ refl

-- A call of `Complete` that is answered with nil has put the event into the inbox.
pub complete_known :
    (e : Text) (db : InboxDatabase)
    → (complete consumer_name e db).1 ≡ nil
    → any_of (same_event consumer_name e) (complete consumer_name e db).0.inbox ≡ true
unfolding complete
complete_known e db h = by (inbox_call db).link h
  where
    by :
        (l : Link)
        → error_of (
            context {A = Unit}
              (codes "failed to insert inbox completion record: ")
              (answered db.inbox l
                (ok (insert_completion (inbox_call db) consumer_name e db.inbox, tt))).1)
          ≡ nil
        → any_of
            (same_event consumer_name e)
            (answered {A = Unit} db.inbox l
              (ok (insert_completion (inbox_call db) consumer_name e db.inbox, tt))).0
          ≡ true
    by up h = insert_completion_known (inbox_call db) consumer_name e db.inbox
    by (refused x) h = absurd (cc)
    by (dropped x) h = absurd (cc)
