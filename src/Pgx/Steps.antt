-- ===== src/Pgx/Steps.antt =====
-- contrib/pgx/repo.go: each call of the repository keeps the keys unique and takes every row along the
-- diagram.
use mathlib.Core.Path.{subst}
use o4x.Prelude.{
  ℕ, ◌≡◌, refl, sym, ap, ◌∙◌, inl, inr, Bool, true, false, Option, none, some, [], ◌∷◌, ◌++◌, Text,
  text_eq_iff, if◌then◌else◌, Bool-cases, arith, any_of, first_of?, map,
}
use o4x.Core.Errors.{Result, ok, err}
use o4x.Core.Model.{Outbox, enqueued, OutboxInsertParams}
use o4x.Pgx.Table.{Table, has_id, id_among, find_row, update_where, oldest, oldest_of}
use o4x.Pgx.Calls.{Call, Database, now_call}
use o4x.Pgx.Rows.{lock_row, scanned}
use o4x.Pgx.Outbox.{
  insert, fetch_and_lock_to_publishing, fetch_lock_and_mark_publishing, get_by_id,
  get_by_idempotency_key, insert_row, insert_json, insert_parsed, metadata_json, conflicts,
  fetchable, lock_oldest, ids_of, new_row, same_key,
}
use o4x.Pgx.Lookup.{find_row-id}
use o4x.Pgx.Keys.{UniqueIds, UniqueIds-append, oldest-find_row, oldest_of-passes}
use o4x.Pgx.Lifecycle.{TableFollows-append, lock_row-Moved}
use o4x.Pgx.Operations.{
  Operation, inserting, fetching, fetching_batch, to_published, to_failed, to_dead,
  batch_to_published, requeuing, reviving, getting, getting_by_key, perform,
}
use o4x.Pgx.Progress.{
  Progress, Progress-refl, Progress-update_where, Progress-query, Progress-query_ok, first_status,
  ok-fst,
}
use o4x.Pgx.Updates.{
  update_to_published-Progress, update_to_dead-Progress, update_to_failed-Progress,
  requeue_failed-Progress, revive_stuck_publishing-Progress, update_batch_to_published-Progress,
}

-- A fetched row is ENQUEUED.
fetchable-enqueued : (call : Call) (r : Outbox) → fetchable call r ≡ true → r.status ≡ enqueued
fetchable-enqueued call r h = first_status _ r.status enqueued h

lock_oldest-Progress :
    (call : Call) (t : Table) (o : Option Outbox)
    → UniqueIds t
    → oldest (fetchable call) t ≡ o
    → Progress t (lock_oldest call o t).0
lock_oldest-Progress call t none u h = Progress-refl t u
lock_oldest-Progress call t (some r) u h =
    Progress-update_where (has_id r.id) (lock_row call) (unfold lock_row in λ q. refl) t u
      λ j q there same. lock_row-Moved call q (chosen j q there same)
  where
    chosen :
        (j : Text) (q : Outbox) → find_row j t ≡ some q → has_id r.id q ≡ true → q.status ≡ enqueued
    chosen j q there same =
        let (found, passes) = oldest-find_row (fetchable call) t r u h in
        let key : q.id ≡ j = (text_eq_iff q.id j).0 (find_row-id j t q there) in
        let again : some q ≡ some r =
          sym there ∙ (ap (λ i. find_row i t) (sym key ∙ (text_eq_iff q.id r.id).0 same) ∙ found) in
        let here : q ≡ r = cc again in ap (λ x. x.status) here ∙ fetchable-enqueued call r passes

fetch_and_lock_to_publishing-Progress :
    (db : Database)
    → UniqueIds db.table
    → Progress db.table (fetch_and_lock_to_publishing db).0.table
unfolding fetch_and_lock_to_publishing
fetch_and_lock_to_publishing-Progress db u =
    Progress-query_ok (λ call t. lock_oldest call (oldest (fetchable call) t) t) db u
      (lock_oldest-Progress (now_call db) db.table (oldest (fetchable (now_call db)) db.table) u
        refl)

lock_all-Progress :
    (n : ℕ) (call : Call) (t : Table)
    → UniqueIds t
    → Progress t
        (update_where (id_among (ids_of (oldest_of n (fetchable call) t))) (lock_row call) t)
lock_all-Progress n call t u =
    Progress-update_where (id_among (ids_of (oldest_of n (fetchable call) t))) (lock_row call)
      (unfold lock_row in λ q. refl) t u
      λ j q there among. lock_row-Moved call q (
        fetchable-enqueued call q (
          oldest_of-passes n (fetchable call) t q u
            (ap (λ i. find_row i t) ((text_eq_iff q.id j).0 (find_row-id j t q there)) ∙ there)
            among))

fetch_lock_and_mark_publishing-Progress :
    (n : ℕ) (db : Database)
    → UniqueIds db.table
    → Progress db.table (fetch_lock_and_mark_publishing n db).0.table
unfolding fetch_lock_and_mark_publishing
fetch_lock_and_mark_publishing-Progress n db u =
    Progress-query_ok
      (λ call t. (
        update_where (id_among (ids_of (oldest_of n (fetchable call) t))) (lock_row call) t,
        call.arrange (map (λ r. scanned (lock_row call r)) (oldest_of n (fetchable call) t)),
      ))
      db u (lock_all-Progress n (now_call db) db.table u)

-- No row has the new key if none conflicts.
pub find_row-no_conflict :
    (new : Outbox) (t : Table) → any_of (conflicts new) t ≡ false → find_row new.id t ≡ none
find_row-no_conflict new [] h = refl
find_row-no_conflict new (r ∷ t) h = ground (arith, find_row-no_conflict new t)

insert_row-Progress :
    (t : Table) (new : Outbox) (t' : Table) (a : Option Outbox)
    → UniqueIds t
    → insert_row t new ≡ ok (t', a)
    → Progress t t'
insert_row-Progress t new t' a u h = elim (Bool-cases (any_of (conflicts new) t)) [
  | inl clash ↦
      subst (Progress t) (ok-fst (t, none) (t', a) (with_test true clash ∙ h)) (Progress-refl t u)
  | inr free ↦
      subst (Progress t) (ok-fst (t ++ new ∷ [], some new) (t', a) (with_test false free ∙ h)) (
        UniqueIds-append t new u (find_row-no_conflict new t free),
        TableFollows-append t (new ∷ []),
      )
]
  where
    with_test :
        (b : Bool)
        → any_of (conflicts new) t ≡ b
        → (if b then ok (t, none) else ok (t ++ new ∷ [], some new)) ≡ insert_row t new
    with_test b e = rw e refl

insert_parsed-Progress :
    (call : Call) (params : OutboxInsertParams) (payload : Option Text)
    (metadata : Result (Option Text)) (t t' : Table) (a : Option Outbox)
    → UniqueIds t
    → insert_parsed call params payload metadata t ≡ ok (t', a)
    → Progress t t'
insert_parsed-Progress call params none metadata t t' a u h = absurd (cc)
insert_parsed-Progress call params (some payload) (err e) t t' a u h = absurd (cc)
insert_parsed-Progress call params (some payload) (ok metadata) t t' a u h =
    insert_row-Progress t (new_row call params payload metadata) t' a u h

insert-Progress :
    (params : OutboxInsertParams) (db : Database)
    → UniqueIds db.table
    → Progress db.table (insert params db).0.table
unfolding insert
insert-Progress params db u =
    Progress-query (λ call t. insert_json call params t) db u
      λ t a e.
        insert_parsed-Progress (now_call db) params ((now_call db).jsonb params.payload)
          (metadata_json (now_call db) params.metadata) db.table t a u e

get_by_id-Progress :
    (j : Text) (db : Database) → UniqueIds db.table → Progress db.table (get_by_id j db).0.table
unfolding get_by_id
get_by_id-Progress j db u =
    Progress-query_ok (λ call t. (t, find_row j t)) db u (Progress-refl db.table u)

get_by_idempotency_key-Progress :
    (event_type key : Text) (db : Database)
    → UniqueIds db.table
    → Progress db.table (get_by_idempotency_key event_type key db).0.table
unfolding get_by_idempotency_key
get_by_idempotency_key-Progress event_type key db u =
    Progress-query_ok (λ call t. (t, first_of? (same_key event_type key) t)) db u
      (Progress-refl db.table u)

-- Every call of the repository, however its connection fares, keeps the keys unique, and takes each row
-- along at most one edge of the diagram, with the message in it unchanged.
pub perform-Progress :
    (op : Operation) (db : Database) → UniqueIds db.table → Progress db.table (perform op db).table
unfolding perform
perform-Progress (inserting params) db u = insert-Progress params db u
perform-Progress fetching db u = fetch_and_lock_to_publishing-Progress db u
perform-Progress (fetching_batch n) db u = fetch_lock_and_mark_publishing-Progress n db u
perform-Progress (to_published j) db u = update_to_published-Progress j db u
perform-Progress (to_failed j message) db u = update_to_failed-Progress j message db u
perform-Progress (to_dead j message) db u = update_to_dead-Progress j message db u
perform-Progress (batch_to_published js) db u = update_batch_to_published-Progress js db u
perform-Progress requeuing db u = requeue_failed-Progress db u
perform-Progress reviving db u = revive_stuck_publishing-Progress db u
perform-Progress (getting j) db u = get_by_id-Progress j db u
perform-Progress (getting_by_key event_type key) db u =
    get_by_idempotency_key-Progress event_type key db u
