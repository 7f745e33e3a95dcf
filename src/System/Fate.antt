-- ===== src/System/Fate.antt =====
-- core/worker.go over contrib/pgx/repo.go: where one `processOne` leaves the message that it took.
use mathlib.Core.Option
use o4x.Prelude.{
  ℕ, ◌+◌, ◌<◌, ◌≤◌, ◌≡◌, refl, ap, ◌∙◌, ◌⊎◌, inl, inr, true, false, not, ◌||◌, some, arith,
  Bool-cases, min, text_eq_refl,
}
use o4x.Core.Errors.{GoError, is_retryable, is_nil}
use o4x.Core.Truncate.{ReplaceAll}
use o4x.Core.Model.{Outbox, failed, published, dead, will_exceed_max_attempts_after_failure}
use o4x.Core.Worker.{World, process_one}
use o4x.Pgx.Table.{has_id, find_row, change, oldest}
use o4x.Pgx.Calls.{Call, Database, up, now_call}
use o4x.Pgx.Rows.{backoff_overflows, fail_row, kill_row, publish_row, lock_row}
use o4x.Pgx.Outbox.{fetchable}
use o4x.Pgx.Keys.{UniqueIds, oldest-find_row}
use o4x.Pgx.Lookup.{KeepsId, find_row-update_where}
use o4x.System.OneMessage.{
  Setup, pgx_worker, process_one_up, verdict, sent, outcome, locked_store, second_call, settled_row,
}

-- What became of the row `r`, which is `q` now, when its publishing ended with `e`.
pub data Fate (e : GoError) (r q : Outbox) : Type 0 where
  was_published :
      is_nil e ≡ true → q.status ≡ published → q.attempt_count ≡ r.attempt_count → Fate e r q
  will_retry :
      {at : ℕ}
      → is_nil e ≡ false
      → is_retryable e ≡ true
      → q.status ≡ failed
      → q.attempt_count ≡ r.attempt_count + 1
      → q.attempt_count < q.max_attempts
      → q.next_retry_at ≡ some at
      → Fate e r q
  is_dead :
      is_nil e ≡ false
      → (is_retryable e ≡ false) ⊎ (r.max_attempts ≤ r.attempt_count + 1)
      → q.status ≡ dead
      → q.attempt_count ≡ min (r.attempt_count + 1) r.max_attempts
      → Fate e r q

module _ (replace_all : ReplaceAll) (call₁ call₂ : Call) (db : Database) (e : GoError)
    (msg r : Outbox) where
  abbrev end_row : Outbox
  end_row = verdict replace_all call₂ db e msg (lock_row call₁ r)

  end_row-published : is_nil e ≡ true → Fate e r end_row
  unfolding publish_row lock_row
  end_row-published fine = rw (fine, publish_row, lock_row) (Fate.was_published fine refl refl)

  end_row-dead :
      is_nil e ≡ false
      → (not (is_retryable e) || will_exceed_max_attempts_after_failure msg) ≡ true
      → msg.attempt_count ≡ r.attempt_count
      → msg.max_attempts ≡ r.max_attempts
      → Fate e r end_row
  unfolding kill_row lock_row will_exceed_max_attempts_after_failure
  end_row-dead bad over same same_limit = rw (bad, over) (Fate.is_dead bad why refl refl)
    where
      why : (is_retryable e ≡ false) ⊎ (r.max_attempts ≤ r.attempt_count + 1)
      why = ground arith

  end_row-failed :
      is_nil e ≡ false
      → (not (is_retryable e) || will_exceed_max_attempts_after_failure msg) ≡ false
      → msg.attempt_count ≡ r.attempt_count
      → msg.max_attempts ≡ r.max_attempts
      → Fate e r end_row
  unfolding fail_row lock_row will_exceed_max_attempts_after_failure
  end_row-failed bad again same same_limit =
      let why : is_retryable e ≡ true = ground arith in
      let room : r.attempt_count + 1 < r.max_attempts = ground arith in
      rw (bad, again) (Fate.will_retry bad why refl refl room refl)

  end_row-Fate :
      msg.attempt_count ≡ r.attempt_count → msg.max_attempts ≡ r.max_attempts → Fate e r end_row
  end_row-Fate same limit = elim (Bool-cases (is_nil e)) [
    | inl fine ↦ end_row-published fine
    | inr bad ↦
        elim (Bool-cases (not (is_retryable e) || will_exceed_max_attempts_after_failure msg)) [
          | inl over ↦ end_row-dead bad over same limit
          | inr again ↦ end_row-failed bad again same limit
        ]
  ]

  end_row-id : end_row.id ≡ r.id
  unfolding publish_row kill_row fail_row lock_row
  end_row-id = ground arith

-- With both calls answered, unique ids, and a backoff that does not overflow, the message that
-- `processOne` took is PUBLISHED if the publishing succeeded; it is DEAD if the error is not retryable
-- or the attempt was the last one; and else it is FAILED, with one attempt more, still below the
-- limit, and with a time for the retry.
pub process_one-Fate :
    {P : Type 0} (s : Setup P) (w : World Database P) (r : Outbox)
    → (now_call w.store).link ≡ up
    → (second_call s w r).link ≡ up
    → UniqueIds w.store.table
    → oldest (fetchable (now_call w.store)) w.store.table ≡ some r
    → backoff_overflows w.store.backoff_base r ≡ false
    → (q : Outbox) × (find_row r.id (process_one (pgx_worker s) w).0.store.table ≡ some q)
      × Fate (outcome s w r) r q
unfolding lock_row
process_one-Fate s w r link₁ link₂ u chosen fits =
    let f = settled_row s w r in
    let there = (oldest-find_row (fetchable (now_call w.store)) w.store.table r u chosen).0 in
    let fate =
      end_row-Fate s.replace_all (now_call w.store) (second_call s w r) (locked_store s w r)
        (outcome s w r) (sent s w r) r refl refl in
    (
      f r,
      ap (find_row r.id) (process_one_up s w r link₁ link₂ u chosen fits).0
          ∙ (find_row-update_where (has_id r.id) f
                (keeps f (λ q.
                  end_row-id s.replace_all (now_call w.store) (second_call s w r)
                    (locked_store s w r) (outcome s w r) (sent s w r) q))
                r.id w.store.table
              ∙ (ap (Option.map (change (has_id r.id) f)) there ∙ ap some (own_row f))),
      fate,
    )
  where
    keeps : (f : Outbox → Outbox) → KeepsId f → KeepsId f
    keeps f k = k

    own_row : (f : Outbox → Outbox) → change (has_id r.id) f r ≡ f r
    own_row f = rw (text_eq_refl r.id) refl
