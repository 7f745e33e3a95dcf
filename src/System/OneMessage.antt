-- ===== src/System/OneMessage.antt =====
-- core/worker.go over contrib/pgx/repo.go: what `processOne` does to the table.
use mathlib.Core.Path.{subst}
use o4x.Prelude.{
  ℕ, suc, ◌≡◌, refl, inl, inr, false, not, ◌&&◌, ◌||◌, Option, some, any_of, tally, if◌then◌else◌,
  Bool-cases, ◌++◌,
}
use o4x.Core.Errors.{GoError, nil, is_nil, is_retryable, error_text}
use o4x.Core.Truncate.{ReplaceAll, truncate_error_message}
use o4x.Core.Model.{Outbox, publishing, will_exceed_max_attempts_after_failure}
use o4x.Core.Repository.{Publisher}
use o4x.Core.Hooks.{Hooks, call_on_publish_start}
use o4x.Core.Worker.{
  Worker, World, mark_published, mark_dead, mark_failed, publish_one, after_fetch, process_one,
  handle_publish_failure,
}
use o4x.Pgx.Table.{Table, has_id, update_where, oldest}
use o4x.Pgx.Calls.{Call, Database, up, now_call}
use o4x.Pgx.Rows.{
  publishing_with, scanned, lock_row, publish_row, kill_row, fail_row, backoff_overflows,
}
use o4x.Pgx.Outbox.{outbox_repository, fetchable}
use o4x.Pgx.Keys.{UniqueIds, oldest-find_row}
use o4x.System.Answers.{
  stepped, fetch_up, published_up, dead_up, failed_up, settled-affected, update_where-update_where,
  any_of-locked,
}

-- The parts of a worker besides its repository.
pub record Setup (P : Type 0) : Type 0 where
  pub publisher : Publisher P
  pub hooks : Option Hooks
  pub replace_all : ReplaceAll
  pub poll_interval : ℕ
  pub max_poll_interval : ℕ

-- `NewWorker` with the repository on PostgreSQL.
unfoldable pub pgx_worker : {P : Type 0} → Setup P → Worker Database P
pgx_worker s = record {
  repo = outbox_repository;
  publisher = s.publisher;
  hooks = s.hooks;
  replace_all = s.replace_all;
  poll_interval = s.poll_interval;
  max_poll_interval = s.max_poll_interval;
}

-- What the second call writes into the row: it depends on the outcome `e` of the publishing, and on the
-- attempts of the message that the worker holds.
abbrev pub failure_verdict : ReplaceAll → Call → Database → GoError → Outbox → Outbox → Outbox
failure_verdict replace_all call db e msg =
    if not (is_retryable e) || will_exceed_max_attempts_after_failure msg
    then kill_row call (truncate_error_message replace_all (error_text e))
    else fail_row call db (truncate_error_message replace_all (error_text e))

abbrev pub verdict : ReplaceAll → Call → Database → GoError → Outbox → Outbox → Outbox
verdict replace_all call db e msg =
    if is_nil e then publish_row call else failure_verdict replace_all call db e msg

-- What is left behind: a table, a broker, and no error.
abbrev pub Leaves : {P : Type 0} → World Database P × GoError → Table → P → Type 0
Leaves x t b = (x.0.store.table ≡ t) × (x.0.broker ≡ b) × (x.1 ≡ nil)

module _ {P : Type 0} (s : Setup P) (msg : Outbox) (w : World Database P)
    (link : (now_call w.store).link ≡ up) where
  abbrev this_call : Call
  this_call = now_call w.store

  mark_published_up :
      Leaves
        (mark_published (pgx_worker s) msg w)
        (update_where (publishing_with msg.id) (publish_row this_call) w.store.table)
        w.broker
  unfolding mark_published pgx_worker outbox_repository
  mark_published_up =
      rw
        (
          published_up msg.id w.store link,
          settled-affected msg.id (tally (publishing_with msg.id) w.store.table),
        )
        (refl, refl, refl)

  mark_dead_up :
      (e : GoError)
      → Leaves
          (mark_dead (pgx_worker s) msg e w)
          (update_where
            (publishing_with msg.id)
            (kill_row this_call (truncate_error_message s.replace_all (error_text e)))
            w.store.table)
          w.broker
  unfolding mark_dead pgx_worker outbox_repository
  mark_dead_up e =
      rw
        (
          dead_up msg.id (truncate_error_message s.replace_all (error_text e)) w.store link,
          settled-affected msg.id (tally (publishing_with msg.id) w.store.table),
        )
        (refl, refl, refl)

  module _
      (fits : any_of
          (λ r. publishing_with msg.id r && backoff_overflows w.store.backoff_base r)
          w.store.table
        ≡ false) where
    mark_failed_up :
        (e : GoError)
        → Leaves
            (mark_failed (pgx_worker s) msg e w)
            (update_where
              (publishing_with msg.id)
              (fail_row this_call w.store (truncate_error_message s.replace_all (error_text e)))
              w.store.table)
            w.broker
    unfolding mark_failed pgx_worker outbox_repository
    mark_failed_up e =
        rw
          (
            failed_up msg.id (truncate_error_message s.replace_all (error_text e)) w.store link
                fits,
            settled-affected msg.id (tally (publishing_with msg.id) w.store.table),
          )
          (refl, refl, refl)

    -- The row's change is decided by the message that the worker holds.
    pub handle_publish_failure_up :
        (e : GoError)
        → Leaves
            (handle_publish_failure (pgx_worker s) msg e w)
            (update_where
              (publishing_with msg.id)
              (failure_verdict s.replace_all this_call w.store e msg)
              w.store.table)
            w.broker
    unfolding handle_publish_failure
    handle_publish_failure_up e =
        elim (Bool-cases (not (is_retryable e) || will_exceed_max_attempts_after_failure msg)) [
          | inl over ↦ rw over (mark_dead_up e)
          | inr again ↦ rw again (mark_failed_up e)
        ]

    settle_up :
        (e : GoError)
        → Leaves
            (if is_nil e
              then mark_published (pgx_worker s) msg w
              else handle_publish_failure (pgx_worker s) msg e w)
            (update_where
              (publishing_with msg.id)
              (verdict s.replace_all this_call w.store e msg)
              w.store.table)
            w.broker
    settle_up e = elim (Bool-cases (is_nil e)) [
      | inl fine ↦ rw fine mark_published_up
      | inr bad ↦ rw bad (handle_publish_failure_up e)
    ]

publish_one_up :
    {P : Type 0} (s : Setup P) (msg : Outbox) (w : World Database P)
    → (now_call w.store).link ≡ up
    → any_of
        (λ r. publishing_with msg.id r && backoff_overflows w.store.backoff_base r)
        w.store.table
      ≡ false
    → Leaves
        (publish_one (pgx_worker s) msg w)
        (update_where
          (publishing_with msg.id)
          (verdict s.replace_all
            (now_call w.store)
            w.store
            (s.publisher.publish msg w.broker).1
            msg)
          w.store.table)
        (s.publisher.publish msg w.broker).0
unfolding publish_one pgx_worker
publish_one_up s msg w link fits =
    settle_up s msg
      (record w {
        notes = w.notes ++ call_on_publish_start s.hooks msg;
        broker = (s.publisher.publish msg w.broker).0;
      })
      link fits (s.publisher.publish msg w.broker).1

lock_row-publishing : (call : Call) (r : Outbox) → (lock_row call r).status ≡ publishing
unfolding lock_row
lock_row-publishing call r = refl

lock_row-id : (call : Call) (r : Outbox) → (lock_row call r).id ≡ r.id
unfolding lock_row
lock_row-id call r = refl

module _ {P : Type 0} (s : Setup P) (w : World Database P) (r : Outbox) where
  abbrev pub first_call : Call
  first_call = now_call w.store

  abbrev pub second_call : Call
  second_call = w.store.schedule (suc w.store.calls)

  abbrev pub sent : Outbox
  sent = scanned (lock_row first_call r)

  abbrev pub outcome : GoError
  outcome = (s.publisher.publish sent w.broker).1

  abbrev pub locked_table : Table
  locked_table = update_where (has_id r.id) (lock_row first_call) w.store.table

  abbrev pub locked_store : Database
  locked_store = stepped w.store locked_table

  -- What `processOne` makes of a row in the end.
  abbrev pub settled_row : Outbox → Outbox
  settled_row q =
      verdict s.replace_all second_call locked_store outcome sent (lock_row first_call q)

  -- With both calls answered, unique ids, and a backoff of the message that does not overflow,
  -- `processOne` takes the oldest message that no other transaction holds, publishes it once, and
  -- writes the outcome into its row and nothing else into the table.
  pub process_one_up :
      first_call.link ≡ up
      → second_call.link ≡ up
      → UniqueIds w.store.table
      → oldest (fetchable first_call) w.store.table ≡ some r
      → backoff_overflows w.store.backoff_base r ≡ false
      → Leaves
          (process_one (pgx_worker s) w)
          (update_where (has_id r.id) settled_row w.store.table)
          (s.publisher.publish sent w.broker).0
  unfolding process_one after_fetch pgx_worker outbox_repository lock_row
  process_one_up link₁ link₂ u chosen fits = rw (fetch_up w.store r link₁ chosen) (
      subst
        (λ t.
          Leaves (publish_one (pgx_worker s) sent (record w { store = locked_store })) t
            (s.publisher.publish sent w.broker).0)
        (update_where-update_where r.id
          (verdict s.replace_all second_call locked_store outcome sent) (lock_row first_call)
          (lock_row-id first_call) (lock_row-publishing first_call) w.store.table)
        (publish_one_up s sent (record w { store = locked_store }) link₂
          (any_of-locked (backoff_overflows w.store.backoff_base) r.id (lock_row first_call)
            (lock_row-id first_call) w.store.table r u
            (oldest-find_row (fetchable first_call) w.store.table r u chosen).0 fits)))
