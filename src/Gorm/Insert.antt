-- ===== src/Gorm/Insert.antt =====
-- contrib/gorm/repo.go and contrib/pgx/repo.go: where `Insert` differs.
use o4x.Prelude.{
  ℕ, ◌≡◌, ◌⊎◌, refl, ap, ◌∙◌, true, false, inl, inr, ◌==◌, Option, none, some, Text, any_of,
  if◌then◌else◌, Bool-cases,
}
use o4x.Core.Errors.{Result, ok, err, sentinel, already_exists}
use o4x.Core.Model.{Outbox, OutboxInsertParams}
use o4x.Pgx.Calls.{Call, Database, query, now_call, Link, up, refused, dropped, answered}
use o4x.Pgx.Table.{Table}
use o4x.Pgx.Outbox
use o4x.Pgx.Outbox.{metadata_json, insert_parsed, insert_json, new_row, conflicts, one_row}
use o4x.Gorm.Outbox.{
  OutboxModel, Creator, model_of, row_of_model, create_parsed, create_statement, insert, with_row,
}

pub record IsCreator (creator : Creator) : Type 0 where
  pub create_law :
      (m : OutboxModel) (db : Database)
      → creator.create m db ≡ query (create_statement (creator.now (now_call db)) m) db

-- A server whose clock shows `now`.
abbrev pub at_clock : ℕ → Database → Database
at_clock now db = record db { schedule = λ n. record (db.schedule n) { clock = now } }

-- A `MaxAttempts` of zero is the column's default.
abbrev pub defaulted : OutboxInsertParams → OutboxInsertParams
defaulted params = record params {
  max_attempts = if params.max_attempts == 0 then 10 else params.max_attempts;
}

abbrev pub given_row : OutboxInsertParams → Outbox → Outbox
given_row params r = record r { payload = params.payload; metadata = params.metadata }

-- The answer with the JSON values as they were given.
abbrev pub as_given : OutboxInsertParams → Result Outbox → Result Outbox
as_given params (ok r) = ok (given_row params r)
as_given params (err e) = err e

abbrev given_option : OutboxInsertParams → Option Outbox → Option Outbox
given_option params none = none
given_option params (some r) = some (given_row params r)

abbrev given_answer :
    OutboxInsertParams → Result (Table × Option Outbox) → Result (Table × Option Outbox)
given_answer params (err e) = err e
given_answer params (ok (t, o)) = ok (t, given_option params o)

created-inserted :
    (call : Call) (now : ℕ) (params : OutboxInsertParams) (p : Option Text)
    (m : Result (Option Text)) (t : Table)
    → create_parsed now (model_of call.new_id params) p m t
      ≡ given_answer params (insert_parsed (record call { clock = now }) (defaulted params) p m t)
unfolding model_of row_of_model new_row
created-inserted call now params none m t = refl
created-inserted call now params (some payload) (err e) t = refl
created-inserted call now params (some payload) (ok metadata) t = by (
    Bool-cases (
      any_of (conflicts (new_row (record call { clock = now }) (defaulted params) payload metadata))
        t))
  where
    by :
        (any_of
              (conflicts
                (new_row (record call { clock = now }) (defaulted params) payload metadata))
              t
            ≡ true)
          ⊎ (any_of
                (conflicts
                  (new_row (record call { clock = now }) (defaulted params) payload metadata))
                t
              ≡ false)
        → create_parsed now (model_of call.new_id params) (some payload) (ok metadata) t
          ≡ given_answer params (
              insert_parsed
                (record call { clock = now })
                (defaulted params)
                (some payload)
                (ok metadata)
                t)
    by (inl e) = rw e refl
    by (inr e) = rw e refl

given-table :
    (params : OutboxInsertParams) (l : Link) (t : Table) (r : Result (Table × Option Outbox))
    → (answered t l (given_answer params r)).0 ≡ (answered t l r).0
given-table params up t (ok (t', o)) = refl
given-table params up t (err e) = refl
given-table params (refused e) t r = refl
given-table params (dropped e) t (ok (t', o)) = refl
given-table params (dropped e) t (err e') = refl

given-answer :
    (params : OutboxInsertParams) (l : Link) (t : Table) (r : Result (Table × Option Outbox))
    → one_row (sentinel already_exists) (answered t l (given_answer params r)).1
      ≡ as_given params (one_row (sentinel already_exists) (answered t l r).1)
given-answer params up t (ok (t', none)) = refl
given-answer params up t (ok (t', some r)) = refl
given-answer params up t (err e) = refl
given-answer params (refused e) t r = refl
given-answer params (dropped e) t (ok (t', o)) = refl
given-answer params (dropped e) t (err e') = refl

-- By what gorm documents of `Create`, `Insert` on gorm leaves the table that `Insert` on pgx would leave, and
-- answers with the same errors, but for three differences: `CreatedAt` and `UpdatedAt` are the time of the
-- application's clock; a `MaxAttempts` of zero becomes the column's default 10, where pgx stores 0; and the
-- message that is returned has the payload and the metadata as they were given, not the server's text.
pub gorm_insert-pgx_insert :
    (creator : Creator)
    → IsCreator creator
    → (params : OutboxInsertParams) (db : Database)
    → let there = Outbox.insert (defaulted params) (at_clock (creator.now (now_call db)) db) in
      ((insert creator params db).0.table ≡ there.0.table)
      × ((insert creator params db).1 ≡ as_given params there.1)
unfolding insert Outbox.insert create_statement model_of
gorm_insert-pgx_insert creator laws params db =
    let law = laws.create_law (model_of (now_call db).new_id params) db in
    let same =
      created-inserted (now_call db) (creator.now (now_call db)) params
        ((now_call db).jsonb params.payload) (metadata_json (now_call db) params.metadata)
        db.table in
    let link = (now_call db).link in
    let there =
      insert_json (now_call (at_clock (creator.now (now_call db)) db)) (defaulted params)
        db.table in
    (
      ap (λ x. x.0.table) law
          ∙ (ap (λ r. (answered db.table link r).0) same ∙ given-table params link db.table there),
      ap (λ x. (with_row (sentinel already_exists) x).1) law
          ∙ (ap (λ r. one_row (sentinel already_exists) (answered db.table link r).1) same
              ∙ given-answer params link db.table there),
    )
