-- ===== src/Pgx/Updates.antt =====
-- contrib/pgx/repo.go: the calls that change the rows that one condition picks out.
use o4x.Prelude.{◌≡◌, refl, true, not, ◌&&◌, List, [], ◌∷◌, Text, arith, tally}
use o4x.Core.Model.{Outbox, publishing}
use o4x.Pgx.Table.{has_id, id_among, update_where}
use o4x.Pgx.Calls.{Call, Database, now_call}
use o4x.Pgx.Rows.{
  publish_row, fail_row, kill_row, requeue_row, requeueable, revive_row, stuck, publishing_with,
  unless_overflow, attempts_used_up,
}
use o4x.Pgx.Outbox.{
  update_to_published, update_to_failed, update_to_dead, update_batch_to_published, requeue_failed,
  revive_stuck_publishing, publishing_among,
}
use o4x.Pgx.Lookup.{KeepsId}
use o4x.Pgx.Keys.{UniqueIds}
use o4x.Pgx.Lifecycle.{
  publish_row-Moved, fail_row-Moved, kill_row-Moved, requeue_row-Moved, revive_row-Moved,
}
use o4x.Pgx.Progress.{
  Progress, Progress-refl, Progress-update_where, Progress-query, Progress-query_ok,
  Progress-unless, status_is, first_status,
}

pub update_to_published-Progress :
    (j : Text) (db : Database)
    → UniqueIds db.table
    → Progress db.table (update_to_published j db).0.table
unfolding update_to_published
update_to_published-Progress j db u =
    Progress-query_ok
      (λ call t.
        (update_where (publishing_with j) (publish_row call) t, tally (publishing_with j) t))
      db u
      (Progress-update_where (publishing_with j) (publish_row (now_call db))
        (unfold publish_row in λ r. refl) db.table u
        λ i r there passes.
          publish_row-Moved (now_call db) r (status_is (has_id j r) r.status publishing passes))

pub update_to_dead-Progress :
    (j message : Text) (db : Database)
    → UniqueIds db.table
    → Progress db.table (update_to_dead j message db).0.table
unfolding update_to_dead
update_to_dead-Progress j message db u =
    Progress-query_ok
      (λ call t.
        (update_where (publishing_with j) (kill_row call message) t, tally (publishing_with j) t))
      db u
      (Progress-update_where (publishing_with j) (kill_row (now_call db) message)
        (unfold kill_row in λ r. refl) db.table u
        λ i r there passes.
          kill_row-Moved (now_call db) message r
            (status_is (has_id j r) r.status publishing passes))

pub update_to_failed-Progress :
    (j message : Text) (db : Database)
    → UniqueIds db.table
    → Progress db.table (update_to_failed j message db).0.table
unfolding update_to_failed
update_to_failed-Progress j message db u =
    Progress-query
      (λ call t. unless_overflow db (publishing_with j) t (
        update_where (publishing_with j) (fail_row call db message) t,
        tally (publishing_with j) t,
      ))
      db u
      (Progress-unless _ _ db.table _ (
        Progress-update_where (publishing_with j) (fail_row (now_call db) db message)
          (unfold fail_row in λ r. refl) db.table u
          λ i r there passes.
            fail_row-Moved (now_call db) db message r
              (status_is (has_id j r) r.status publishing passes)))

pub requeue_failed-Progress :
    (db : Database) → UniqueIds db.table → Progress db.table (requeue_failed db).0.table
unfolding requeue_failed
requeue_failed-Progress db u =
    Progress-query_ok
      (λ call t. (update_where (requeueable call) (requeue_row call) t, tally (requeueable call) t))
      db u
      (Progress-update_where (requeueable (now_call db)) (requeue_row (now_call db))
        (unfold requeue_row in λ r. refl) db.table u
        λ i r there passes. requeue_row-Moved (now_call db) r passes)

pub revive_row-KeepsId : (call : Call) (db : Database) → KeepsId (revive_row call db)
unfolding revive_row
revive_row-KeepsId call db r = ground arith

pub stuck-publishing :
    (call : Call) (db : Database) (r : Outbox) → stuck call db r ≡ true → r.status ≡ publishing
unfolding stuck
stuck-publishing call db r h = first_status _ r.status publishing h

pub revive_stuck_publishing-Progress :
    (db : Database) → UniqueIds db.table → Progress db.table (revive_stuck_publishing db).0.table
unfolding revive_stuck_publishing
revive_stuck_publishing-Progress db u =
    Progress-query
      (λ call t.
        unless_overflow db (λ r. stuck call db r && not (attempts_used_up r)) t
          (update_where (stuck call db) (revive_row call db) t, tally (stuck call db) t))
      db u
      (Progress-unless _ _ db.table _ (
        Progress-update_where (stuck (now_call db) db) (revive_row (now_call db) db)
          (revive_row-KeepsId (now_call db) db) db.table u
          λ i r there passes.
            revive_row-Moved (now_call db) db r (stuck-publishing (now_call db) db r passes)))

pub update_batch_to_published-Progress :
    (js : List Text) (db : Database)
    → UniqueIds db.table
    → Progress db.table (update_batch_to_published js db).0.table
unfolding update_batch_to_published
update_batch_to_published-Progress [] db u = Progress-refl db.table u
update_batch_to_published-Progress (j ∷ js) db u =
    Progress-query_ok
      (λ call t. (
        update_where (publishing_among (j ∷ js)) (publish_row call) t,
        tally (publishing_among (j ∷ js)) t,
      ))
      db u
      (Progress-update_where (publishing_among (j ∷ js)) (publish_row (now_call db))
        (unfold publish_row in λ r. refl) db.table u
        λ i r there passes.
          publish_row-Moved (now_call db) r
            (status_is (id_among (j ∷ js) r) r.status publishing passes))
