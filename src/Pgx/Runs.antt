-- ===== src/Pgx/Runs.antt =====
-- contrib/pgx/repo.go: what holds over any sequence of calls, by any number of workers.
use mathlib.Core.Path.{subst}
use o4x.Prelude.{
  ℕ, ◌+◌, ◌≤◌, ◌≡◌, sym, ap, ◌∙◌, ◌⊎◌, inl, inr, Option, some, List, [], ◌∷◌, Text, arith,
}
use o4x.Core.Model.{Outbox, OutboxStatus, enqueued, publishing, published, failed, dead}
use o4x.Pgx.Table.{find_row}
use o4x.Pgx.Calls.{Database}
use o4x.Pgx.Lifecycle.{Edge, SameMessage, Follows, chances, chances_in, entries}
use o4x.Pgx.Keys.{UniqueIds}
use o4x.Pgx.Steps.{perform-Progress}
use o4x.Pgx.Operations.{Operation, perform, perform_all}

SameMessage-trans : {r q p : Outbox} → SameMessage r q → SameMessage q p → SameMessage r p
SameMessage-trans a b = record {
  same_id = a.same_id ∙ b.same_id;
  same_event_type = a.same_event_type ∙ b.same_event_type;
  same_payload = a.same_payload ∙ b.same_payload;
  same_metadata = a.same_metadata ∙ b.same_metadata;
  same_key = a.same_key ∙ b.same_key;
  same_limit = a.same_limit ∙ b.same_limit;
  same_creation = a.same_creation ∙ b.same_creation;
}

SameMessage-refl : (r : Outbox) → SameMessage r r
SameMessage-refl r = ground arith

pub Follows-same : {r q : Outbox} → Follows r q → SameMessage r q
Follows-same {r} {q} (inl e) = subst (λ x. SameMessage r x) (sym e) (SameMessage-refl r)
Follows-same (inr m) = m.same

-- What one call may do to a row: nothing, or one step along the diagram with the message unchanged.
abbrev pub OneStep : Outbox → Outbox → Type 0
OneStep r q = (q ≡ r) ⊎ (Edge r.status q.status × SameMessage r q)

-- The row `j` is there before the calls and after each of them, one step further at most each time.
abbrev pub Walks : Text → List Operation → Database → Outbox → Type 0
Walks j [] db r = find_row j db.table ≡ some r
Walks j (op ∷ ops) db r =
    (find_row j db.table ≡ some r) × (q : Outbox) × OneStep r q × Walks j ops (perform op db) q

Follows-OneStep : {r q : Outbox} → Follows r q → OneStep r q
Follows-OneStep (inl e) = inl e
Follows-OneStep (inr m) = inr (m.edge, m.same)

-- In a table with unique ids, under any sequence of calls but deletes, whatever the connections do, a
-- message that is there is there after each of the calls, and each call leaves its row as it is, or takes it
-- along one edge of the diagram, which are ENQUEUED to PUBLISHING, PUBLISHING to PUBLISHED, DEAD or FAILED,
-- and FAILED to ENQUEUED, with its id, key, type, payload, metadata, limit and creation time unchanged.
pub perform_all-kept :
    (ops : List Operation) (db : Database) (j : Text) (r : Outbox)
    → UniqueIds db.table
    → find_row j db.table ≡ some r
    → Walks j ops db r
perform_all-kept [] db j r u there = there
perform_all-kept (op ∷ ops) db j r u there =
    let (unique, follows) = perform-Progress op db u in
    let (q, found, step) = follows j r there in
    (there, q, Follows-OneStep step, perform_all-kept ops (perform op db) j q unique found)

-- At the end the message is there as it was given.
pub perform_all-same :
    (ops : List Operation) (db : Database) (j : Text) (r : Outbox)
    → UniqueIds db.table
    → find_row j db.table ≡ some r
    → (q : Outbox) × (find_row j (perform_all ops db).table ≡ some q) × SameMessage r q
unfolding perform_all
perform_all-same [] db j r u there = (r, there, SameMessage-refl r)
perform_all-same (op ∷ ops) db j r u there =
    let (unique, follows) = perform-Progress op db u in
    let (q, found, step) = follows j r there in
    let (p, found', same') = perform_all-same ops (perform op db) j q unique found in
    (p, found', SameMessage-trans (Follows-same step) same')

-- A row that no edge can move.
abbrev pub IsFinal : Outbox → Type 0
IsFinal r =
    ((r.status ≡ published) ⊎ (r.status ≡ dead))
    ⊎ ((r.status ≡ failed) × (r.max_attempts ≤ r.attempt_count))

IsFinal-Follows : (r q : Outbox) → IsFinal r → Follows r q → q ≡ r
IsFinal-Follows r q f (inl e) = e
IsFinal-Follows r q f (inr m) = absurd (stays r.status q.status m.edge f m.paid)
  where
    stays :
        (s t : OutboxStatus)
        → Edge s t
        → ((s ≡ published) ⊎ (s ≡ dead)) ⊎ ((s ≡ failed) × (r.max_attempts ≤ r.attempt_count))
        → entries s t + chances_in t q ≤ chances_in s r
        → ⊥
    stays s t Edge.pick_up f h = ground arith
    stays s t Edge.succeed f h = ground arith
    stays s t Edge.fail f h = ground arith
    stays s t Edge.give_up f h = ground arith
    stays s t Edge.retry f h = ground arith

-- In a table with unique ids, PUBLISHED and DEAD are final: no sequence of calls but deletes changes
-- such a row in any column. So is FAILED once the attempts have reached the limit: such a row is never
-- published again and never becomes DEAD.
pub perform_all_final :
    (ops : List Operation) (db : Database) (j : Text) (r : Outbox)
    → UniqueIds db.table
    → find_row j db.table ≡ some r
    → IsFinal r
    → find_row j (perform_all ops db).table ≡ some r
unfolding perform_all
perform_all_final [] db j r u there f = there
perform_all_final (op ∷ ops) db j r u there f =
    let (unique, follows) = perform-Progress op db u in
    let (q, found, step) = follows j r there in
    perform_all_final ops (perform op db) j r unique (found ∙ ap some (IsFinal-Follows r q f step))
      f

-- Whether the row `j` enters PUBLISHING from one table to the next.
abbrev pub entered : Option Outbox → Option Outbox → ℕ
entered (some r) (some q) = entries r.status q.status
entered _ _ = 0

-- How often the row `j` enters PUBLISHING in a sequence of calls.
unfoldable pub entered_in : Text → List Operation → Database → ℕ
entered_in j [] db = 0
entered_in j (op ∷ ops) db =
    entered (find_row j db.table) (find_row j (perform op db).table)
    + entered_in j ops (perform op db)

Follows-pays : (r q : Outbox) → Follows r q → entries r.status q.status + chances q ≤ chances r
Follows-pays r q (inl e) =
    subst (λ x. entries r.status x.status + chances x ≤ chances r) (sym e) (nothing r.status r)
  where
    nothing : (s : OutboxStatus) (r : Outbox) → entries s s + chances_in s r ≤ chances_in s r
    nothing enqueued r = omega arith
    nothing publishing r = omega arith
    nothing _ r = omega arith
Follows-pays r q (inr m) = m.paid

-- In a table with unique ids, and any sequence of calls but deletes, a message enters PUBLISHING at
-- most as often as it has chances left: these are counted from its state and from the attempts that
-- its limit leaves.
pub entered_in-le-chances :
    (ops : List Operation) (db : Database) (j : Text) (r : Outbox)
    → UniqueIds db.table
    → find_row j db.table ≡ some r
    → entered_in j ops db ≤ chances r
unfolding entered_in
entered_in-le-chances [] db j r u there = omega arith
entered_in-le-chances (op ∷ ops) db j r u there =
    let (unique, follows) = perform-Progress op db u in
    let (q, found, step) = follows j r there in
    rw (there, found)
      (omega
        (arith, Follows-pays r q step, entered_in-le-chances ops (perform op db) j q unique found))
