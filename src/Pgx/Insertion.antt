-- ===== src/Pgx/Insertion.antt =====
-- contrib/pgx/repo.go: what `Insert` promises, now and after any other calls.
use mathlib.Core.Path.{subst}
use o4x.Prelude.{
  ◌+◌, ◌-◌, ◌≤◌, ◌≡◌, ◌≢◌, refl, sym, ap, ◌∙◌, ◌⊎◌, inl, inr, Bool, true, false, Option, none, some,
  List, [], ◌∷◌, ◌++◌, Text, arith, any_of, text_eq_iff, text_eq_refl, if◌then◌else◌, Bool-cases,
}
use o4x.Core.Errors.{GoError, sentinel, already_exists, Result, ok, err}
use o4x.Core.Model.{Outbox, OutboxInsertParams, enqueued}
use o4x.Pgx.Table.{Table, find_row}
use o4x.Pgx.Calls.{Call, Database, Link, up, refused, dropped, now_call, answered}
use o4x.Pgx.Outbox.{
  insert, insert_row, insert_json, insert_parsed, metadata_json, conflicts, new_row, one_row,
}
use o4x.Pgx.Lifecycle.{chances_in}
use o4x.Pgx.Keys.{UniqueIds}
use o4x.Pgx.Operations.{Operation, inserting, perform, perform_all}
use o4x.Pgx.Runs.{perform_all-same, entered_in, entered_in-le-chances}
use o4x.Pgx.Steps.{perform-Progress, find_row-no_conflict}

-- A successful insert says what was stored.
abbrev pub Stored : OutboxInsertParams → Outbox → Table → Type 0
Stored params r t =
    (find_row r.id t ≡ some r)
    × (r.event_type ≡ params.event_type)
    × (r.idempotency_key ≡ params.idempotency_key)
    × (r.max_attempts ≡ params.max_attempts)
    × (r.status ≡ enqueued)
    × (r.attempt_count ≡ 1)

pub find_row-at_end :
    (t : Table) (r : Outbox) → find_row r.id t ≡ none → find_row r.id (t ++ r ∷ []) ≡ some r
find_row-at_end [] r h = rw (text_eq_refl r.id) refl
find_row-at_end (q ∷ t) r h = ground (arith, find_row-at_end t r)

insert_row-stores :
    (t : Table) (new : Outbox) (t' : Table) (r : Outbox)
    → insert_row t new ≡ ok (t', some r)
    → (find_row r.id t' ≡ some r) × (r ≡ new)
insert_row-stores t new t' r h = elim (Bool-cases (any_of (conflicts new) t)) [
  | inl clash ↦ absurd (cc (with_test true clash ∙ h))
  | inr free ↦
      let done : (t ++ new ∷ [] ≡ t') × (new ≡ r) = ends (with_test false free ∙ h) in
      (
        subst (λ x. find_row x.id t' ≡ some x) done.1
            (subst (λ u. find_row new.id u ≡ some new) done.0
              (find_row-at_end t new (find_row-no_conflict new t free))),
        sym done.1,
      )
]
  where
    with_test :
        (b : Bool)
        → any_of (conflicts new) t ≡ b
        → (if b then ok (t, none) else ok (t ++ new ∷ [], some new)) ≡ insert_row t new
    with_test b e = rw e refl

    ends :
        ◌≡◌ {A = Result (Table × Option Outbox)} (ok (t ++ new ∷ [], some new)) (ok (t', some r))
        → (t ++ new ∷ [] ≡ t') × (new ≡ r)
    ends e = (cc, cc)

insert_parsed-stores :
    (call : Call) (params : OutboxInsertParams) (payload : Option Text)
    (metadata : Result (Option Text)) (t t' : Table) (r : Outbox)
    → insert_parsed call params payload metadata t ≡ ok (t', some r)
    → Stored params r t'
insert_parsed-stores call params none metadata t t' r h = absurd (cc)
insert_parsed-stores call params (some payload) (err e) t t' r h = absurd (cc)
insert_parsed-stores call params (some payload) (ok metadata) t t' r h =
    let (there, same) = insert_row-stores t (new_row call params payload metadata) t' r h in
    (
      there,
      ap (λ x. x.event_type) same ∙ unfold new_row in refl,
      ap (λ x. x.idempotency_key) same ∙ unfold new_row in refl,
      ap (λ x. x.max_attempts) same ∙ unfold new_row in refl,
      ap (λ x. x.status) same ∙ unfold new_row in refl,
      ap (λ x. x.attempt_count) same ∙ unfold new_row in refl,
    )

pub answered-ok :
    (t : Table) (l : Link) (s : Result (Table × Option Outbox)) (r : Outbox)
    → one_row (sentinel already_exists) (answered t l s).1 ≡ ok r
    → s ≡ ok ((answered t l s).0, some r)
answered-ok t up (ok (t', none)) r h = absurd (cc)
answered-ok t up (ok (t', some q)) r h = cc
answered-ok t up (err e) r h = absurd (cc)
answered-ok t (refused e) s r h = absurd (cc)
answered-ok t (dropped e) (ok (t', a)) r h = absurd (cc)
answered-ok t (dropped e) (err e') r h = absurd (cc)

insert-Stored :
    (params : OutboxInsertParams) (db : Database) (r : Outbox)
    → (insert params db).1 ≡ ok r
    → Stored params r (insert params db).0.table
unfolding insert
insert-Stored params db r h =
    let call = now_call db in
    insert_parsed-stores call params (call.jsonb params.payload)
      (metadata_json call params.metadata) db.table _ r
      (answered-ok db.table call.link (insert_json call params db.table) r h)

insert-UniqueIds :
    (params : OutboxInsertParams) (db : Database)
    → UniqueIds db.table
    → UniqueIds (insert params db).0.table
unfolding perform
insert-UniqueIds params db u = (perform-Progress (inserting params) db u).0

-- A message whose `Insert` into a table with unique ids succeeded enters PUBLISHING, from any other
-- state, at most once if its limit of attempts is 0, 1 or 2, and at most `MaxAttempts - 1` times otherwise, whatever calls
-- but deletes any workers make, and in any order. The column `attempt_count` starts at 1.
pub insert-attempts :
    (params : OutboxInsertParams) (db : Database) (r : Outbox) (ops : List Operation)
    → UniqueIds db.table
    → (insert params db).1 ≡ ok r
    → entered_in r.id ops (insert params db).0 ≤ 1 + (params.max_attempts - 2)
insert-attempts params db r ops u h =
    let (there, _, _, limit, fresh, first) = insert-Stored params db r h in
    let most =
      entered_in-le-chances ops (insert params db).0 r.id r (insert-UniqueIds params db u) there in
    omega (arith, most, ap (λ s. chances_in s r) fresh, limit, first)

-- A row with the event type and the key blocks an insert.
pub conflicts-of_key :
    (new q : Outbox) (t : Table) (j : Text)
    → find_row j t ≡ some q
    → q.event_type ≡ new.event_type
    → q.idempotency_key ≡ new.idempotency_key
    → any_of (conflicts new) t ≡ true
conflicts-of_key new q [] j there e k = absurd (cc)
conflicts-of_key new q (r ∷ t) j there e k = ground (
  arith,
  text_eq_iff r.event_type new.event_type,
  text_eq_iff r.idempotency_key new.idempotency_key,
  conflicts-of_key new q t j,
)

insert_row_clash :
    (t : Table) (new : Outbox) → any_of (conflicts new) t ≡ true → insert_row t new ≡ ok (t, none)
insert_row_clash t new h = rw h refl

-- A statement that changes nothing and inserts nothing.
abbrev IsRefusal : Table → Result (Table × Option Outbox) → Type 0
IsRefusal t s = (s ≡ ok (t, none)) ⊎ ((e : GoError) × (s ≡ err e))

insert_parsed-IsRefusal :
    (call : Call) (params : OutboxInsertParams) (payload : Option Text)
    (metadata : Result (Option Text)) (t : Table)
    → ((p : Text) (m : Option Text) → any_of (conflicts (new_row call params p m)) t ≡ true)
    → IsRefusal t (insert_parsed call params payload metadata t)
insert_parsed-IsRefusal call params none metadata t h = inr (_, refl)
insert_parsed-IsRefusal call params (some p) (err e) t h = inr (e, refl)
insert_parsed-IsRefusal call params (some p) (ok m) t h =
    inl (insert_row_clash t (new_row call params p m) (h p m))

IsRefusal-answered :
    (t : Table) (l : Link) (s : Result (Table × Option Outbox)) (q : Outbox)
    → IsRefusal t s
    → ((answered t l s).0 ≡ t) × (one_row (sentinel already_exists) (answered t l s).1 ≢ ok q)
IsRefusal-answered t up s q (inl e) = rw e (refl, λ x. cc)
IsRefusal-answered t up s q (inr (x, e)) = rw e (refl, λ x. cc)
IsRefusal-answered t (refused c) s q h = (refl, λ x. cc)
IsRefusal-answered t (dropped c) s q (inl e) = rw e (refl, λ x. cc)
IsRefusal-answered t (dropped c) s q (inr (x, e)) = rw e (refl, λ x. cc)

-- Rows with the new message's event type and key: one from the first insert, wherever it stands now.
key_taken :
    (params params' : OutboxInsertParams) (db : Database) (r : Outbox) (ops : List Operation)
    → UniqueIds db.table
    → (insert params db).1 ≡ ok r
    → params'.event_type ≡ params.event_type
    → params'.idempotency_key ≡ params.idempotency_key
    → (call : Call) (p : Text) (m : Option Text)
    → any_of (conflicts (new_row call params' p m)) (perform_all ops (insert params db).0).table
      ≡ true
unfolding new_row
key_taken params params' db r ops u h type_same key_same call p m =
    let (there, type_is, key_is, _, _, _) = insert-Stored params db r h in
    let (q, found, same) =
      perform_all-same ops (insert params db).0 r.id r (insert-UniqueIds params db u) there in
    conflicts-of_key (new_row call params' p m) q (perform_all ops (insert params db).0).table r.id
      found (sym same.same_event_type ∙ (type_is ∙ sym type_same))
      (sym same.same_key ∙ (key_is ∙ sym key_same))

-- After an `Insert` into a table with unique ids that succeeded, and any calls but deletes of any
-- workers, no `Insert` with the same event type and idempotency key succeeds, and none changes the
-- table, whatever the connection does.
pub insert_again :
    (params params' : OutboxInsertParams) (db : Database) (r q : Outbox) (ops : List Operation)
    → UniqueIds db.table
    → (insert params db).1 ≡ ok r
    → params'.event_type ≡ params.event_type
    → params'.idempotency_key ≡ params.idempotency_key
    → ((insert params' (perform_all ops (insert params db).0)).0.table
        ≡ (perform_all ops (insert params db).0).table)
      × ((insert params' (perform_all ops (insert params db).0)).1 ≢ ok q)
insert_again params params' db r q ops u h type_same key_same =
    refused_at (perform_all ops (insert params db).0)
      (key_taken params params' db r ops u h type_same key_same)
  where
    refused_at :
        (d : Database)
        → ((call : Call) (p : Text) (m : Option Text)
            → any_of (conflicts (new_row call params' p m)) d.table ≡ true)
        → ((insert params' d).0.table ≡ d.table) × ((insert params' d).1 ≢ ok q)
    refused_at d taken =
        unfold insert in
        let call = now_call d in
        IsRefusal-answered d.table call.link (insert_json call params' d.table) q (
          insert_parsed-IsRefusal call params' (call.jsonb params'.payload)
            (metadata_json call params'.metadata) d.table (taken call))
