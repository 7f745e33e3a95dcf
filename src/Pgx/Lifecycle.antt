-- ===== src/Pgx/Lifecycle.antt =====
-- contrib/pgx/repo.go, README.md (Outbox Status Flow): what any call of the repository may do to a row.
use mathlib.Core.Option
use o4x.Prelude.{
  ℕ, ◌+◌, ◌-◌, ◌≤◌, ◌<◌, ◌≡◌, refl, ap, ◌∙◌, ◌⊎◌, inl, inr, Bool, true, Option, some, ◌++◌, Text,
  Bool-cases, arith, leb,
}
use o4x.Core.Model.{Outbox, OutboxStatus, enqueued, publishing, published, failed, dead}
use o4x.Pgx.Table.{Table, find_row, change, update_where}
use o4x.Pgx.Calls.{Call, Database}
use o4x.Pgx.Rows.{publish_row, fail_row, kill_row, lock_row, requeue_row, requeueable, revive_row}
use o4x.Pgx.Lookup.{KeepsId, find_row-update_where, find_row-append}

-- The edges of the diagram of states.
pub data Edge : OutboxStatus → OutboxStatus → Type 0 where
  pick_up : Edge enqueued publishing
  succeed : Edge publishing published
  fail : Edge publishing failed
  give_up : Edge publishing dead
  retry : Edge failed enqueued

-- What identifies a message, and its limit of attempts.
pub record SameMessage (r q : Outbox) : Type 0 where
  pub same_id : r.id ≡ q.id
  pub same_event_type : r.event_type ≡ q.event_type
  pub same_payload : r.payload ≡ q.payload
  pub same_metadata : r.metadata ≡ q.metadata
  pub same_key : r.idempotency_key ≡ q.idempotency_key
  pub same_limit : r.max_attempts ≡ q.max_attempts
  pub same_creation : r.created_at ≡ q.created_at

-- How often a message can still enter PUBLISHING.
abbrev pub chances_in : OutboxStatus → Outbox → ℕ
chances_in enqueued r = 1 + (r.max_attempts - r.attempt_count - 1)
chances_in publishing r = r.max_attempts - r.attempt_count - 1
chances_in failed r = r.max_attempts - r.attempt_count
chances_in _ r = 0

abbrev pub chances : Outbox → ℕ
chances r = chances_in r.status r

-- A step spends a chance if it enters PUBLISHING, from whatever other state.
abbrev pub entries : OutboxStatus → OutboxStatus → ℕ
entries publishing publishing = 0
entries _ publishing = 1
entries _ _ = 0

-- One call does nothing to a row, or takes it along one edge and pays for it.
pub record Moved (r q : Outbox) : Type 0 where
  pub edge : Edge r.status q.status
  pub same : SameMessage r q
  pub paid : entries r.status q.status + chances q ≤ chances r

abbrev pub Follows : Outbox → Outbox → Type 0
Follows r q = (q ≡ r) ⊎ Moved r q

-- From one table to a later one, every row follows its edges.
abbrev pub TableFollows : Table → Table → Type 0
TableFollows t u =
    (j : Text) (r : Outbox)
    → find_row j t ≡ some r
    → (q : Outbox) × (find_row j u ≡ some q) × Follows r q

pub TableFollows-refl : (t : Table) → TableFollows t t
TableFollows-refl t j r h = (r, h, inl refl)

-- An update whose changed rows move is a step of the table.
pub TableFollows-update_where :
    (p : Outbox → Bool) (f : Outbox → Outbox)
    → KeepsId f
    → (t : Table) → ((j : Text) (r : Outbox) → find_row j t ≡ some r → p r ≡ true → Moved r (f r))
    → TableFollows t (update_where p f t)
TableFollows-update_where p f keep t moves j r h =
    let there = find_row-update_where p f keep j t ∙ ap (Option.map (change p f)) h in
    (change p f r, there, changed)
  where
    changed : Follows r (change p f r)
    changed = elim (Bool-cases (p r)) [
      | inl e ↦ rw e (inr (moves j r h e))
      | inr e ↦ rw e (inl refl)
    ]

pub TableFollows-append : (t u : Table) → TableFollows t (t ++ u)
TableFollows-append t u j r h = (r, find_row-append j t u r h, inl refl)

-- The rest of what a call writes is not part of the message's identity.
pub written :
    (r : Outbox) (st : OutboxStatus) (m : Option Text) (n : ℕ) (at : Option ℕ) (u : ℕ)
    → SameMessage r (record r {
      status = st;
      error_message = m;
      attempt_count = n;
      next_retry_at = at;
      updated_at = u;
    })
written r st m n at u = ground arith

pub publish_row-Moved :
    (call : Call) (r : Outbox) → r.status ≡ publishing → Moved r (publish_row call r)
unfolding publish_row
publish_row-Moved call r h = record {
  edge = rw h Edge.succeed;
  same = written r published r.error_message r.attempt_count r.next_retry_at call.clock;
  paid = rw h (omega arith);
}

pub fail_row-Moved :
    (call : Call) (db : Database) (message : Text) (r : Outbox)
    → r.status ≡ publishing
    → Moved r (fail_row call db message r)
unfolding fail_row
fail_row-Moved call db message r h = record {
  edge = rw h Edge.fail;
  same = ground arith;
  paid = rw h (omega arith);
}

pub kill_row-Moved :
    (call : Call) (message : Text) (r : Outbox)
    → r.status ≡ publishing
    → Moved r (kill_row call message r)
unfolding kill_row
kill_row-Moved call message r h = record {
  edge = rw h Edge.give_up;
  same = ground arith;
  paid = rw h (omega arith);
}

pub lock_row-Moved : (call : Call) (r : Outbox) → r.status ≡ enqueued → Moved r (lock_row call r)
unfolding lock_row
lock_row-Moved call r h = record {
  edge = rw h Edge.pick_up;
  same = ground arith;
  paid = rw h (omega arith);
}

pub requeue_row-Moved :
    (call : Call) (r : Outbox) → requeueable call r ≡ true → Moved r (requeue_row call r)
unfolding requeue_row requeueable
requeue_row-Moved call r h =
    let was : r.status ≡ failed = ground arith in
    let room : r.attempt_count < r.max_attempts = ground arith in
    record { edge = rw was Edge.retry; same = ground arith; paid = rw was (omega arith) }

pub revive_row-Moved :
    (call : Call) (db : Database) (r : Outbox)
    → r.status ≡ publishing
    → Moved r (revive_row call db r)
unfolding revive_row
revive_row-Moved call db r h = elim (Bool-cases (leb r.max_attempts (r.attempt_count + 1))) [
  | inl over ↦
      rw over (record { edge = rw h Edge.give_up; same = ground arith; paid = rw h (omega arith) })
  | inr under ↦
      rw under (record { edge = rw h Edge.fail; same = ground arith; paid = rw h (ground arith) })
]
