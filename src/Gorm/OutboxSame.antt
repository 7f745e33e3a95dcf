-- ===== src/Gorm/OutboxSame.antt =====
-- contrib/gorm/repo.go and contrib/pgx/repo.go: the two outboxes do the same, but for an insert.
use mathlib.Core.Path.{fun_ext}
use o4x.Prelude.{
  ℕ, ◌≤◌, ◌≡◌, refl, ap, ◌∙◌, inl, inr, Bool, true, false, not, ◌&&◌, Option, none, some, ltb,
  tally, List, [], ◌∷◌, Text, Bool-cases,
}
use o4x.Core.Errors.{sentinel, no_message, not_found, Result, ok}
use o4x.Core.Model.{Outbox, OutboxStatus, failed, status_eq}
use o4x.Pgx.Calls.{Call, Database, query}
use o4x.Pgx.Table.{Table, has_id, update_where, oldest}
use o4x.Pgx.Rows.{
  publish_row, fail_row, kill_row, lock_row, requeue_row, requeueable, is_due, revive_row, stuck,
  unless_overflow, attempts_used_up,
}
use o4x.Pgx.Outbox
use o4x.Pgx.Outbox.{with_error, same_key, fetchable, lock_oldest}
use o4x.Gorm.Orm.{Orm, IsOrm}
use o4x.Gorm.Queries.{
  set, publishing_where, publishing_in, is_set, has_come, requeue_where, stuck_where, old_where,
  free_where, lock_values, published_values, failed_values, dead_values, requeued_values, is_last,
  revived_values,
}
use o4x.Gorm.Outbox.{
  with_row, updates, lock_first, fetch_and_lock_to_publishing, update_to_published,
  update_to_failed, update_to_dead, requeue_failed, get_by_id, get_by_idempotency_key,
  revive_stuck_publishing, fetch_lock_and_mark_publishing, update_batch_to_published,
  delete_older_than,
}

-- At most one row of an id, and at most one of an event type and key.
pub record IsKeyed (t : Table) : Type 0 where
  pub by_id : (j : Text) → tally (has_id j) t ≤ 1
  pub by_key : (event_type key : Text) → tally (same_key event_type key) t ≤ 1

-- The conditions and the assignments of the two packages, one by one.
requeue_where-requeueable : (call : Call) (r : Outbox) → requeue_where call r ≡ requeueable call r
unfolding requeue_where requeueable
requeue_where-requeueable call r =
    by (status_eq r.status failed) (ltb r.attempt_count r.max_attempts) r.next_retry_at
  where
    by :
        (a b : Bool) (o : Option ℕ)
        → (((a && b) && is_set o) && has_come call.clock o) ≡ (a && (b && is_due call.clock o))
    by true true none = refl
    by true true (some at) = refl
    by true false none = refl
    by true false (some at) = refl
    by false b none = refl
    by false b (some at) = refl

revived_values-revive_row :
    (call : Call) (db : Database) (r : Outbox)
    → set (revived_values call db) r ≡ revive_row call db r
unfolding revived_values revive_row
revived_values-revive_row call db r = elim (Bool-cases (is_last r)) [
  | inl last ↦ rw last refl
  | inr early ↦ rw early refl
]

revived-same :
    (db : Database)
    → ◌≡◌ {A = Call → Table → Result (Table × ℕ)}
        (λ call t.
          unless_overflow db
            (λ r. stuck call db r && not (attempts_used_up r))
            t
            (
              update_where (stuck call db) (set (revived_values call db)) t,
              tally (stuck call db) t,
            ))
        (λ call t.
          unless_overflow db
            (λ r. stuck call db r && not (attempts_used_up r))
            t
            (update_where (stuck call db) (revive_row call db) t, tally (stuck call db) t))
revived-same db =
    let each : ◌≡◌ {A = Call → Outbox → Outbox} (λ call. set (revived_values call db))
        (λ call. revive_row call db) =
      fun_ext (λ call. fun_ext (revived_values-revive_row call db)) in
    let statement : (Call → Outbox → Outbox) → Call → Table → Result (Table × ℕ) = λ f call t.
      unless_overflow db (λ r. stuck call db r && not (attempts_used_up r)) t
        (update_where (stuck call db) (f call) t, tally (stuck call db) t) in
    ap statement each

module _ (orm : Orm Outbox Call Database)
    (laws : IsOrm orm (λ db. db.table) (λ A. query {A = A})) where
  same_batch :
      (ids : List Text) (db : Database)
      → update_batch_to_published orm ids db ≡ Outbox.update_batch_to_published ids db
  unfolding update_batch_to_published Outbox.update_batch_to_published publishing_in
      published_values publish_row
  same_batch [] db = refl
  same_batch (j ∷ ids) db = laws.exec_law _ db

  same_delete :
      (statuses : List OutboxStatus) (age : ℕ) (db : Database)
      → delete_older_than orm statuses age db ≡ Outbox.delete_older_than statuses age db
  unfolding delete_older_than Outbox.delete_older_than old_where
  same_delete [] age db = refl
  same_delete (s ∷ statuses) age db = laws.exec_law _ db

  same_requeue : (db : Database) → requeue_failed orm db ≡ Outbox.requeue_failed db
  unfolding requeue_failed Outbox.requeue_failed requeued_values requeue_row
  same_requeue db =
      let tests : requeue_where ≡ requeueable =
        fun_ext (λ call. fun_ext (requeue_where-requeueable call)) in
      laws.exec_law _ db ∙ ap (λ p. query (updates p requeue_row) db) tests

  same_revive : (db : Database) → revive_stuck_publishing orm db ≡ Outbox.revive_stuck_publishing db
  unfolding revive_stuck_publishing Outbox.revive_stuck_publishing stuck_where stuck
  same_revive db = laws.exec_law _ db ∙ ap (λ s. query s db) (revived-same db)

  same_fetch :
      (db : Database) → fetch_and_lock_to_publishing orm db ≡ Outbox.fetch_and_lock_to_publishing db
  unfolding fetch_and_lock_to_publishing Outbox.fetch_and_lock_to_publishing free_where
  same_fetch db = ap (with_row (sentinel no_message)) (
      laws.scan_law _ db
      ∙ ap (λ s. query s db)
          (fun_ext (λ call. fun_ext (λ t. ap ok (by call t (oldest (free_where call) t))))))
    where
      by :
          (call : Call) (t : Table) (o : Option Outbox) → lock_first call o t ≡ lock_oldest call o t
      by call t none = refl
      by call t (some r) = unfold lock_values lock_row in refl

  -- On a table with unique ids and keys, and by what gorm documents of its calls, each method of the outbox on
  -- gorm other than `Insert` answers and changes what the method on pgx does, errors included.
  pub gorm_outbox-pgx_outbox :
      (j message event_type key : Text) (limit age : ℕ) (ids : List Text)
      (statuses : List OutboxStatus) (db : Database)
      → IsKeyed db.table
      → (fetch_and_lock_to_publishing orm db ≡ Outbox.fetch_and_lock_to_publishing db)
        × (fetch_lock_and_mark_publishing orm limit db
            ≡ Outbox.fetch_lock_and_mark_publishing limit db)
        × (update_to_published orm j db ≡ Outbox.update_to_published j db)
        × (update_to_failed orm j message db ≡ Outbox.update_to_failed j message db)
        × (update_to_dead orm j message db ≡ Outbox.update_to_dead j message db)
        × (update_batch_to_published orm ids db ≡ Outbox.update_batch_to_published ids db)
        × (requeue_failed orm db ≡ Outbox.requeue_failed db)
        × (revive_stuck_publishing orm db ≡ Outbox.revive_stuck_publishing db)
        × (get_by_id orm j db ≡ Outbox.get_by_id j db)
        × (get_by_idempotency_key orm event_type key db
            ≡ Outbox.get_by_idempotency_key event_type key db)
        × (delete_older_than orm statuses age db ≡ Outbox.delete_older_than statuses age db)
  unfolding update_to_published update_to_failed update_to_dead get_by_id get_by_idempotency_key
      fetch_lock_and_mark_publishing Outbox.update_to_published Outbox.update_to_failed
      Outbox.update_to_dead Outbox.get_by_id Outbox.get_by_idempotency_key
      Outbox.fetch_lock_and_mark_publishing publishing_where published_values publish_row
      failed_values fail_row dead_values kill_row free_where lock_values lock_row
  gorm_outbox-pgx_outbox j message event_type key limit age ids statuses db k = (
    same_fetch db,
    laws.scan_all_law _ db,
    ap (with_error j) (laws.exec_law _ db),
    ap (with_error j) (laws.exec_law _ db),
    ap (with_error j) (laws.exec_law _ db),
    same_batch ids db,
    same_requeue db,
    same_revive db,
    ap (with_row (sentinel not_found)) (laws.first_law (has_id j) db (k.by_id j)),
    ap (with_row (sentinel not_found))
        (laws.first_law (same_key event_type key) db (k.by_key event_type key)),
    same_delete statuses age db,
  )
