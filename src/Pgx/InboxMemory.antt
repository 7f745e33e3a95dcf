-- ===== src/Pgx/InboxMemory.antt =====
-- contrib/pgx/inbox_repo.go: the repository as a memory of completed events, over any calls.
use mathlib.Core.Path.{subst}
use o4x.Prelude.{ℕ, suc, ◌≡◌, refl, sym, ap, ◌∙◌, List, [], ◌∷◌, Option, Text}
use o4x.Core.Errors.{ok}
use o4x.Pgx.Calls.{Link, up, refused, dropped, reached, answered-reached}
use o4x.Pgx.Inbox.{
  InboxTable, InboxCall, InboxDatabase, inbox_call, is_processed, complete, get_by_event_id,
  delete_inbox_older_than, insert_completion, delete_completed,
}
use o4x.Pgx.InboxKeys.{
  is_some, remembered, IsUnique, any_of-remembered, completed_one, unless_old,
  remembered-insert_completion, insert_completion-IsUnique, remembered-delete_completed,
  delete_completed-IsUnique,
}

pub data InboxAct : Type 0 where
  asking completing getting : Text → Text → InboxAct
  cleaning : ℕ → InboxAct

-- What a call does to the memory of one event, which is the time when it was completed, if it was.
unfoldable pub remember : InboxAct → InboxCall → Text → Text → Option ℕ → Option ℕ
remember (completing c e) call c' e' o = completed_one call c e c' e' o
remember (cleaning age) call c' e' o = unless_old age call.clock o
remember _ call c' e' o = o

unfoldable pub perform_inbox : InboxAct → InboxDatabase → InboxDatabase
perform_inbox (asking c e) db = (is_processed c e db).0
perform_inbox (completing c e) db = (complete c e db).0
perform_inbox (getting c e) db = (get_by_event_id c e db).0
perform_inbox (cleaning age) db = (delete_inbox_older_than age db).0

abbrev pub performed : List InboxAct → InboxDatabase → InboxDatabase
performed [] db = db
performed (a ∷ acts) db = performed acts (perform_inbox a db)

-- The memory after calls, of which the first has the number `n`.
unfoldable pub memory_after :
    List InboxAct → (ℕ → InboxCall) → ℕ → Text → Text → Option ℕ → Option ℕ
memory_after [] schedule n c e o = o
memory_after (a ∷ acts) schedule n c e o =
    memory_after acts schedule (suc n) c e
      (reached (schedule n).link o (remember a (schedule n) c e o))

-- What a call makes of the table, if it reaches the server.
abbrev statement_of : InboxAct → InboxCall → InboxTable → InboxTable
statement_of (completing c e) call t = insert_completion call c e t
statement_of (cleaning age) call t = delete_completed age call t
statement_of _ call t = t

perform_inbox-inbox :
    (a : InboxAct) (db : InboxDatabase)
    → (perform_inbox a db).inbox
      ≡ reached (inbox_call db).link db.inbox (statement_of a (inbox_call db) db.inbox)
unfolding perform_inbox is_processed complete get_by_event_id delete_inbox_older_than
perform_inbox-inbox (asking c e) db = answered-reached (inbox_call db).link _ _ _
perform_inbox-inbox (completing c e) db = answered-reached {A = Unit} (inbox_call db).link _ _ _
perform_inbox-inbox (getting c e) db = answered-reached (inbox_call db).link _ _ _
perform_inbox-inbox (cleaning age) db = answered-reached (inbox_call db).link _ _ _

statement_of-IsUnique :
    (a : InboxAct) (call : InboxCall) (t : InboxTable)
    → IsUnique t
    → IsUnique (statement_of a call t)
statement_of-IsUnique (asking c e) call t u = u
statement_of-IsUnique (completing c e) call t u = insert_completion-IsUnique call c e t u
statement_of-IsUnique (getting c e) call t u = u
statement_of-IsUnique (cleaning age) call t u = delete_completed-IsUnique age call t u

remembered-statement_of :
    (a : InboxAct) (call : InboxCall) (t : InboxTable) (c e : Text)
    → IsUnique t
    → remembered (statement_of a call t) c e ≡ remember a call c e (remembered t c e)
unfolding remember
remembered-statement_of (asking c' e') call t c e u = refl
remembered-statement_of (completing c' e') call t c e u =
    remembered-insert_completion call c' e' t c e
remembered-statement_of (getting c' e') call t c e u = refl
remembered-statement_of (cleaning age) call t c e u = remembered-delete_completed age call t c e u

reached-IsUnique :
    (l : Link) (t t' : InboxTable) → IsUnique t → IsUnique t' → IsUnique (reached l t t')
reached-IsUnique up t t' u u' = u'
reached-IsUnique (refused e) t t' u u' = u
reached-IsUnique (dropped e) t t' u u' = u'

remembered-reached :
    (l : Link) (t t' : InboxTable) (c e : Text)
    → remembered (reached l t t') c e ≡ reached l (remembered t c e) (remembered t' c e)
remembered-reached up t t' c e = refl
remembered-reached (refused x) t t' c e = refl
remembered-reached (dropped x) t t' c e = refl

perform_inbox-schedule :
    (a : InboxAct) (db : InboxDatabase)
    → ((perform_inbox a db).schedule ≡ db.schedule) × ((perform_inbox a db).calls ≡ suc db.calls)
unfolding perform_inbox is_processed complete get_by_event_id delete_inbox_older_than
perform_inbox-schedule (asking c e) db = (refl, refl)
perform_inbox-schedule (completing c e) db = (refl, refl)
perform_inbox-schedule (getting c e) db = (refl, refl)
perform_inbox-schedule (cleaning age) db = (refl, refl)

pub perform_inbox-IsUnique :
    (a : InboxAct) (db : InboxDatabase) → IsUnique db.inbox → IsUnique (perform_inbox a db).inbox
perform_inbox-IsUnique a db u = subst IsUnique (sym (perform_inbox-inbox a db)) (
    reached-IsUnique (inbox_call db).link _ _ u
      (statement_of-IsUnique a (inbox_call db) db.inbox u))

remembered-perform_inbox :
    (a : InboxAct) (db : InboxDatabase) (c e : Text)
    → IsUnique db.inbox
    → remembered (perform_inbox a db).inbox c e
      ≡ reached
          (inbox_call db).link
          (remembered db.inbox c e)
          (remember a (inbox_call db) c e (remembered db.inbox c e))
remembered-perform_inbox a db c e u =
    ap (λ t. remembered t c e) (perform_inbox-inbox a db)
    ∙ (remembered-reached (inbox_call db).link _ _ c e
        ∙ ap (reached (inbox_call db).link (remembered db.inbox c e))
            (remembered-statement_of a (inbox_call db) db.inbox c e u))

remembered-performed :
    (acts : List InboxAct) (db : InboxDatabase) (c e : Text)
    → IsUnique db.inbox
    → IsUnique (performed acts db).inbox
      × (remembered (performed acts db).inbox c e
          ≡ memory_after acts db.schedule db.calls c e (remembered db.inbox c e))
unfolding memory_after
remembered-performed [] db c e u = (u, refl)
remembered-performed (a ∷ acts) db c e u =
    let (u', h) =
      remembered-performed acts (perform_inbox a db) c e (perform_inbox-IsUnique a db u) in
    let (same, next) = perform_inbox-schedule a db in
    (
      u',
      h
          ∙ (ap
                (λ f.
                  memory_after acts f (perform_inbox a db).calls c e
                    (remembered (perform_inbox a db).inbox c e))
                same
              ∙ (ap
                    (λ n.
                      memory_after acts db.schedule n c e
                        (remembered (perform_inbox a db).inbox c e))
                    next
                  ∙ ap (memory_after acts db.schedule (suc db.calls) c e)
                      (remembered-perform_inbox a db c e u))),
    )

-- After any calls on a table without duplicates, each of which may be lost before or behind the server, there are
-- still no duplicates, and an answered `IsProcessed` is true exactly if a memory of completed events says so:
-- the event was completed by a call that reached the server, the first such time counting, and no
-- cleanup since found that time too old.
pub is_processed-performed :
    (acts : List InboxAct) (db : InboxDatabase) (c e : Text)
    → IsUnique db.inbox
    → (inbox_call (performed acts db)).link ≡ up
    → IsUnique (performed acts db).inbox
      × ((is_processed c e (performed acts db)).1
          ≡ ok (is_some (memory_after acts db.schedule db.calls c e (remembered db.inbox c e))))
unfolding is_processed
is_processed-performed acts db c e u h =
    let (u', m) = remembered-performed acts db c e u in
    (u', rw h (ap ok (any_of-remembered (performed acts db).inbox c e ∙ ap is_some m)))
