-- ===== src/System/StaleWorker.antt =====
-- core/worker.go, contrib/pgx/repo.go: `handlePublishFailure` decides by the attempts of the message that it
-- fetched, and `UpdateToFailed` counts on in the row as it is by then. In between, the message may have
-- been revived, requeued and fetched again.
use mathlib.Core.Option
use mathlib.Core.Path.{subst}
use o4x.Prelude.{
  ◌+◌, ◌<◌, ◌≡◌, refl, sym, ap, ◌∙◌, inr, true, false, ◌&&◌, some, Text, arith, any_of, List, leb,
}
use o4x.Core.Errors.{GoError, is_retryable, error_text}
use o4x.Core.Truncate.{truncate_error_message}
use o4x.Core.Model.{Outbox, publishing, failed, will_exceed_max_attempts_after_failure}
use o4x.Core.Worker.{World, handle_publish_failure}
use o4x.Pgx.Table.{has_id, find_row, update_where, change}
use o4x.Pgx.Calls.{Database, up, now_call}
use o4x.Pgx.Rows.{publishing_with, backoff_overflows, fail_row}
use o4x.Pgx.Keys.{UniqueIds, UniqueIds-update_where}
use o4x.Pgx.Lookup.{find_row-update_where, find_row-id}
use o4x.Pgx.Operations.{Operation, perform_all}
use o4x.Pgx.Runs.{IsFinal, perform_all_final}
use o4x.System.OneMessage.{Setup, pgx_worker, handle_publish_failure_up, failure_verdict}

-- The worker holds the message `msg` with an older count of attempts than its row `q` has by now: by that
-- count a further attempt is left, and by the row's the failure is the last one.
pub record IsStale (msg q : Outbox) : Type 0 where
  pub in_flight : q.status ≡ publishing
  pub attempt_left : msg.attempt_count + 1 < msg.max_attempts
  pub last_one : q.attempt_count + 1 ≡ q.max_attempts

module _ {P : Type 0} (s : Setup P) (msg q : Outbox) (e : GoError) (w : World Database P) where
  abbrev message : Text
  message = truncate_error_message s.replace_all (error_text e)

  abbrev pub left : World Database P
  left = (handle_publish_failure (pgx_worker s) msg e w).0

  verdict_fails :
      msg.attempt_count + 1 < msg.max_attempts
      → is_retryable e ≡ true
      → failure_verdict s.replace_all (now_call w.store) w.store e msg
        ≡ fail_row (now_call w.store) w.store message
  unfolding will_exceed_max_attempts_after_failure
  verdict_fails h again =
      let under : leb msg.max_attempts (msg.attempt_count + 1) ≡ false = ground arith in
      rw (again, under) refl

  fail_row-IsFinal : IsStale msg q → IsFinal (fail_row (now_call w.store) w.store message q)
  unfolding fail_row
  fail_row-IsFinal h = inr (refl, omega arith)

  left_table :
      (now_call w.store).link ≡ up
      → any_of
          (λ r. publishing_with msg.id r && backoff_overflows w.store.backoff_base r)
          w.store.table
        ≡ false
      → IsStale msg q
      → is_retryable e ≡ true
      → left.store.table
        ≡ update_where
            (publishing_with msg.id)
            (fail_row (now_call w.store) w.store message)
            w.store.table
  left_table link fits h again =
      (handle_publish_failure_up s msg w link fits e).0
      ∙ ap (λ f. update_where (publishing_with msg.id) f w.store.table)
          (verdict_fails h.attempt_left again)

  -- Let a worker hold a message by whose count a further attempt is left, while its row, in a table
  -- with unique ids, is PUBLISHING on its last attempt. If the worker's publishing ends with a
  -- retryable error, its update is answered and no backoff overflows, the row is FAILED with all its
  -- attempts used up, and stays so under any calls but deletes of any workers: it is neither retried
  -- nor marked DEAD.
  pub stale_worker_strands :
      (ops : List Operation)
      → (now_call w.store).link ≡ up
      → any_of
          (λ r. publishing_with msg.id r && backoff_overflows w.store.backoff_base r)
          w.store.table
        ≡ false
      → UniqueIds w.store.table
      → find_row msg.id w.store.table ≡ some q
      → IsStale msg q
      → is_retryable e ≡ true
      → (x : Outbox) × (find_row msg.id (perform_all ops left.store).table ≡ some x)
        × (x.status ≡ failed)
        × (x.attempt_count ≡ x.max_attempts)
  unfolding fail_row
  stale_worker_strands ops link fits u there h again =
      let t = left_table link fits h again in
      let found : find_row msg.id left.store.table
          ≡ some (fail_row (now_call w.store) w.store message q) =
        ap (find_row msg.id) t
        ∙ (find_row-update_where (publishing_with msg.id)
              (fail_row (now_call w.store) w.store message) (λ r. refl) msg.id w.store.table
            ∙ (ap
                  (Option.map
                    (change (publishing_with msg.id) (fail_row (now_call w.store) w.store message)))
                  there
                ∙ ap some changed)) in
      let unique : UniqueIds left.store.table = subst UniqueIds (sym t) (
        UniqueIds-update_where (publishing_with msg.id)
          (fail_row (now_call w.store) w.store message) (λ r. refl) w.store.table u) in
      (
        fail_row (now_call w.store) w.store message q,
        perform_all_final ops left.store msg.id (fail_row (now_call w.store) w.store message q)
            unique found (fail_row-IsFinal h),
        refl,
        h.last_one,
      )
    where
      changed :
          change (publishing_with msg.id) (fail_row (now_call w.store) w.store message) q
          ≡ fail_row (now_call w.store) w.store message q
      changed =
          let same : has_id msg.id q ≡ true = find_row-id msg.id w.store.table q there in
          let here : publishing_with msg.id q ≡ true = rw (same, h.in_flight) refl in rw here refl
