-- ===== src/System/Requeue.antt =====
-- core/dispatcher.go over contrib/pgx/repo.go: what the requeue worker does for a failed message.
use mathlib.Core.Option
use o4x.Prelude.{
  ℕ, zero, suc, ◌+◌, ◌<◌, ◌≡◌, ◌⊎◌, refl, sym, ap, ◌∙◌, inl, inr, true, false, some, Text, ltb, leb,
  Bool-cases, arith,
}
use o4x.Core.Model.{Outbox, enqueued, failed}
use o4x.Core.Requeue.{run_requeue_worker}
use o4x.Pgx.Table.{Table, find_row, change}
use o4x.Pgx.Calls.{Call, Database, Link, up, refused, dropped, now_call, reached, answered-reached}
use o4x.Pgx.Lookup.{find_row-update_where}
use o4x.Pgx.Rows.{requeueable, requeue_row}
use o4x.Pgx.Outbox.{requeue_failed, outbox_repository}

-- A failed message that has attempts left and is due at the time `at`.
pub record IsRetryable (r : Outbox) (at : ℕ) : Type 0 where
  pub is_failed : r.status ≡ failed
  pub has_attempts : ltb r.attempt_count r.max_attempts ≡ true
  pub due : r.next_retry_at ≡ some at

requeueable-due :
    (call : Call) (r : Outbox) (at : ℕ) → IsRetryable r at → requeueable call r ≡ leb at call.clock
unfolding requeueable
requeueable-due call r at f = rw (f.is_failed, f.has_attempts, f.due) refl

requeueable-requeue_row : (c call : Call) (r : Outbox) → requeueable c (requeue_row call r) ≡ false
unfolding requeueable requeue_row
requeueable-requeue_row c call r = refl

-- What a tick makes of one row.
abbrev ticked : Call → Outbox → Outbox
ticked call r = reached call.link r (change (requeueable call) (requeue_row call) r)

find_row-reached :
    (l : Link) (t t' : Table) (j : Text) (r r' : Outbox)
    → find_row j t ≡ some r
    → find_row j t' ≡ some r'
    → find_row j (reached l t t') ≡ some (reached l r r')
find_row-reached up t t' j r r' h k = k
find_row-reached (refused e) t t' j r r' h k = h
find_row-reached (dropped e) t t' j r r' h k = k

find_row-tick :
    (db : Database) (j : Text) (r : Outbox)
    → find_row j db.table ≡ some r
    → find_row j (requeue_failed db).0.table ≡ some (ticked (now_call db) r)
unfolding requeue_failed
find_row-tick db j r h =
    ap (find_row j) (answered-reached (now_call db).link _ _ _)
    ∙ find_row-reached (now_call db).link _ _ j r _ h (
        find_row-update_where _ (requeue_row (now_call db)) (unfold requeue_row in λ q. refl) j
          db.table
        ∙ ap (Option.map _) h)

reached_refl : (l : Link) (r : Outbox) → reached l r r ≡ r
reached_refl up r = refl
reached_refl (refused e) r = refl
reached_refl (dropped e) r = refl

ticked_cases :
    (call : Call) (r : Outbox) (at : ℕ)
    → IsRetryable r at
    → ((ticked call r ≡ r) × (call.link ≡ up → leb at call.clock ≡ true → ⊥))
      ⊎ (ticked call r ≡ requeue_row call r)
ticked_cases call r at f = elim (Bool-cases (requeueable call r)) [
  | inr early ↦ inl (
    rw early (reached_refl call.link r),
    λ _ late. cc (sym early ∙ (requeueable-due call r at f ∙ late)),
  )
  | inl now ↦ rw now (by call.link)
]
  where
    by :
        (l : Link)
        → ((reached l r (requeue_row call r) ≡ r) × (l ≡ up → leb at call.clock ≡ true → ⊥))
          ⊎ (reached l r (requeue_row call r) ≡ requeue_row call r)
    by up = inr refl
    by (refused e) = inl (refl, λ h _. cc)
    by (dropped e) = inr refl

stays_enqueued :
    (ticks : ℕ) (db : Database) (j : Text) (call : Call) (r : Outbox)
    → find_row j db.table ≡ some (requeue_row call r)
    → find_row j (run_requeue_worker outbox_repository ticks db).table ≡ some (requeue_row call r)
unfolding run_requeue_worker outbox_repository
stays_enqueued zero db j call r h = h
stays_enqueued (suc ticks) db j call r h = stays_enqueued ticks (requeue_failed db).0 j call r (
    find_row-tick db j (requeue_row call r) h
    ∙ ap some (
        rw (requeueable-requeue_row (now_call db) call r)
          (reached_refl (now_call db).link (requeue_row call r))))

enqueued_now :
    (ticks : ℕ) (db : Database) (j : Text) (r : Outbox)
    → find_row j db.table ≡ some r
    → ticked (now_call db) r ≡ requeue_row (now_call db) r
    → find_row j (run_requeue_worker outbox_repository ticks (requeue_failed db).0).table
      ≡ some (requeue_row (now_call db) r)
enqueued_now ticks db j r h done =
    stays_enqueued ticks (requeue_failed db).0 j (now_call db) r
      (find_row-tick db j r h ∙ ap some done)

now_schedule : (db : Database) → now_call db ≡ db.schedule (db.calls + 0)
now_schedule db = let e : db.calls ≡ db.calls + 0 = omega arith in ap db.schedule e

schedule-tick :
    (db : Database) (k : ℕ)
    → (requeue_failed db).0.schedule ((requeue_failed db).0.calls + k)
      ≡ db.schedule (db.calls + suc k)
unfolding requeue_failed
schedule-tick db k = let e : suc db.calls + k ≡ db.calls + suc k = omega arith in ap db.schedule e

enqueues :
    (ticks : ℕ) (db : Database) (j : Text) (r : Outbox) (at k : ℕ)
    → find_row j db.table ≡ some r
    → IsRetryable r at
    → k < ticks
    → (db.schedule (db.calls + k)).link ≡ up
    → leb at (db.schedule (db.calls + k)).clock ≡ true
    → (call : Call) × (find_row j (run_requeue_worker outbox_repository ticks db).table
        ≡ some (requeue_row call r))
unfolding run_requeue_worker outbox_repository
enqueues zero db j r at k h f early answered late = absurd (omega arith)
enqueues (suc ticks) db j r at zero h f early answered late =
    elim (ticked_cases (now_call db) r at f) [
      | inr done ↦ (now_call db, enqueued_now ticks db j r h done)
      | inl (same, missed) ↦ absurd (
          missed (ap (λ c. c.link) (now_schedule db) ∙ answered)
            (ap (λ c. leb at c.clock) (now_schedule db) ∙ late))
    ]
enqueues (suc ticks) db j r at (suc k) h f early answered late =
    elim (ticked_cases (now_call db) r at f) [
      | inr done ↦ (now_call db, enqueued_now ticks db j r h done)
      | inl (same, missed) ↦
          enqueues ticks (requeue_failed db).0 j r at k (find_row-tick db j r h ∙ ap some same) f
            (omega arith) (ap (λ c. c.link) (schedule-tick db k) ∙ answered)
            (ap (λ c. leb at c.clock) (schedule-tick db k) ∙ late)
    ]

-- A failed message with attempts left is enqueued again, and stays so with all its other fields but
-- `updated_at`, whatever the requeue worker's other calls meet, if one of its ticks is answered by a server
-- whose clock has reached the message's `next_retry_at`.
pub run_requeue_worker-retries :
    (ticks : ℕ) (db : Database) (j : Text) (r : Outbox) (at k : ℕ)
    → find_row j db.table ≡ some r
    → IsRetryable r at
    → k < ticks
    → (db.schedule (db.calls + k)).link ≡ up
    → leb at (db.schedule (db.calls + k)).clock ≡ true
    → (now : ℕ) × (find_row j (run_requeue_worker outbox_repository ticks db).table
        ≡ some (record r { status = enqueued; updated_at = now }))
run_requeue_worker-retries ticks db j r at k h f early answered late =
    let (call, there) = enqueues ticks db j r at k h f early answered late in
    (call.clock, there ∙ ap some (unfold requeue_row in refl))
