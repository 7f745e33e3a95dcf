-- ===== src/Pgx/Appending.antt =====
-- contrib/pgx/repo.go: the table after an `Insert` that succeeded is the old one with the new row behind it.
use mathlib.Core.Path.{subst}
use o4x.Prelude.{
  ℕ, ◌≡◌, refl, sym, ap, ◌∙◌, Bool, true, false, Option, none, some, [], ◌∷◌, ◌++◌, Text, any_of,
  if◌then◌else◌,
}
use o4x.Core.Errors.{Result, ok, err}
use o4x.Core.Model.{Outbox, OutboxInsertParams, enqueued}
use o4x.Pgx.Table.{Table}
use o4x.Pgx.Calls.{Call, Database, now_call}
use o4x.Pgx.Outbox.{
  insert, bad_json, insert_row, insert_json, insert_parsed, metadata_json, conflicts, new_row,
}
use o4x.Pgx.Insertion.{answered-ok}

-- The metadata of a message as a column: NULL for none, and the server's text of the JSON otherwise.
abbrev pub HasMetadata : (Text → Option Text) → Option Text → Option Text → Type 0
HasMetadata jsonb none stored = stored ≡ none
HasMetadata jsonb (some m) stored = (text : Text) × (jsonb m ≡ some text) × (stored ≡ some text)

-- One row is appended, whose key is new, with what was to be inserted: the payload and the metadata in the server's
-- text of the JSON, at one of its calls.
pub record Appended (server : ℕ → Call) (params : OutboxInsertParams) (r : Outbox) (t t' : Table)
    : Type 0 where
  pub call : ℕ
  pub body : (server call).jsonb params.payload ≡ some r.payload
  pub extra : HasMetadata (server call).jsonb params.metadata r.metadata
  pub rows : t' ≡ t ++ r ∷ []
  pub unused : any_of (conflicts r) t ≡ false
  pub typed : r.event_type ≡ params.event_type
  pub keyed : r.idempotency_key ≡ params.idempotency_key
  pub limited : r.max_attempts ≡ params.max_attempts
  pub fresh : r.status ≡ enqueued

insert_row-appends :
    (t : Table) (new : Outbox) (t' : Table) (r : Outbox)
    → insert_row t new ≡ ok (t', some r)
    → (new ≡ r) × (t' ≡ t ++ new ∷ []) × (any_of (conflicts new) t ≡ false)
insert_row-appends t new t' r h = by (any_of (conflicts new) t) refl h
  where
    by :
        (b : Bool)
        → any_of (conflicts new) t ≡ b
        → ◌≡◌ {A = Result (Table × Option Outbox)}
            (if b then ok (t, none) else ok (t ++ new ∷ [], some new))
            (ok (t', some r))
        → (new ≡ r) × (t' ≡ t ++ new ∷ []) × (any_of (conflicts new) t ≡ false)
    by true e k = absurd (cc)
    by false e k = (cc, cc, e)

metadata-HasMetadata :
    (call : Call) (m stored : Option Text)
    → metadata_json call m ≡ ok stored
    → HasMetadata call.jsonb m stored
metadata-HasMetadata call none stored h = cc
metadata-HasMetadata call (some m) stored h = by (call.jsonb m) refl h
  where
    by :
        (o : Option Text)
        → call.jsonb m ≡ o
        → ◌≡◌ {A = Result (Option Text)}
            (elim o [ none ↦ err bad_json | some m' ↦ ok (some m') ])
            (ok stored)
        → (text : Text) × (call.jsonb m ≡ some text) × (stored ≡ some text)
    by none e k = absurd (cc)
    by (some text) e k = (text, e, cc)

insert_parsed-Appended :
    (server : ℕ → Call) (n : ℕ) (params : OutboxInsertParams) (payload : Option Text)
    (metadata : Result (Option Text)) (t t' : Table) (r : Outbox)
    → (server n).jsonb params.payload ≡ payload
    → metadata_json (server n) params.metadata ≡ metadata
    → insert_parsed (server n) params payload metadata t ≡ ok (t', some r)
    → Appended server params r t t'
insert_parsed-Appended server n params none metadata t t' r text extra h = absurd (cc h)
insert_parsed-Appended server n params (some payload) (err e) t t' r text extra h = absurd (cc h)
insert_parsed-Appended server n params (some payload) (ok metadata) t t' r text extra h =
    let new = new_row (server n) params payload metadata in
    let (made, rows, unused) = insert_row-appends t new t' r h in
    let payload_same : payload ≡ r.payload = unfold new_row in refl ∙ ap (λ x. x.payload) made in
    let metadata_same : metadata ≡ r.metadata =
      unfold new_row in refl ∙ ap (λ x. x.metadata) made in
    record {
      call = n;
      body = text ∙ ap some payload_same;
      extra =
          subst (HasMetadata (server n).jsonb params.metadata) metadata_same
            (metadata-HasMetadata (server n) params.metadata metadata extra);
      rows = rows ∙ ap (λ x. t ++ x ∷ []) made;
      unused = subst (λ x. any_of (conflicts x) t ≡ false) made unused;
      typed = ap (λ x. x.event_type) (sym made) ∙ unfold new_row in refl;
      keyed = ap (λ x. x.idempotency_key) (sym made) ∙ unfold new_row in refl;
      limited = ap (λ x. x.max_attempts) (sym made) ∙ unfold new_row in refl;
      fresh = ap (λ x. x.status) (sym made) ∙ unfold new_row in refl;
    }

pub insert-Appended :
    (params : OutboxInsertParams) (db : Database) (r : Outbox)
    → (insert params db).1 ≡ ok r
    → Appended db.schedule params r db.table (insert params db).0.table
unfolding insert
insert-Appended params db r h =
    let call = now_call db in
    insert_parsed-Appended db.schedule db.calls params (call.jsonb params.payload)
      (metadata_json call params.metadata) db.table _ r refl refl
      (answered-ok db.table call.link (insert_json call params db.table) r h)
