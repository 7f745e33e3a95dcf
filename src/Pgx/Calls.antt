-- ===== src/Pgx/Calls.antt =====
-- contrib/pgx/repo.go: the fields of `OutboxRepository`, and a call of `Exec` or `Query` on its connection. A
-- statement is a function on the table; what the server and the network do with a call is a record, one
-- for each call in turn.
use o4x.Prelude.{◌≡◌, refl, ℕ, suc, Bool, Option, List, Text}
use o4x.Core.Errors.{GoError, Result, ok, err}
use o4x.Core.Model.{Outbox}
use o4x.Pgx.Table.{Table}

-- How the connection fares: the statement is answered, or never reaches the server, or is carried out
-- and its answer is lost.
pub data Link : Type 0 where
  up : Link
  refused : GoError → Link
  dropped : GoError → Link

-- What one call meets. `clock` is `clock_timestamp()`; `locked` are the rows that other transactions have
-- locked; `jitter j d` is `d * (0.5 + random() * 0.5)` at the row `j`; `arrange` is the order in which
-- an `UPDATE … RETURNING` gives its rows; `new_id` is the next UUID of `core.GenerateID`; `jsonb` is the
-- server's text of a JSON value, and `none` for what is no JSON.
pub record Call : Type 0 where
  pub link : Link
  pub clock : ℕ
  pub locked : Text → Bool
  pub jitter : Text → ℕ → ℕ
  pub arrange : List Outbox → List Outbox
  pub new_id : Text
  pub jsonb : Text → Option Text

-- `OutboxRepository` with the table behind it. Durations are in microseconds.
pub record Database : Type 0 where
  pub table : Table
  pub backoff_base : ℕ
  pub backoff_max : ℕ
  pub stuck_publishing_threshold : ℕ
  pub calls : ℕ
  pub schedule : ℕ → Call

-- A statement gives the new table and an answer, or an error of the server.
abbrev pub Statement : Type 0 → Type 0
Statement A = Table → Result (Table × A)

abbrev pub answered : {T A : Type 0} → T → Link → Result (T × A) → T × Result A
answered t up (ok (t', a)) = (t', ok a)
answered t up (err e) = (t, err e)
answered t (refused e) r = (t, err e)
answered t (dropped e) (ok (t', a)) = (t', err e)
answered t (dropped e) (err _) = (t, err e)

abbrev pub now_call : Database → Call
now_call db = db.schedule db.calls

abbrev pub query : {A : Type 0} → (Call → Statement A) → Database → Database × Result A
query stmt db =
    let (t, r) = answered db.table (now_call db).link (stmt (now_call db) db.table) in
    (record db { table = t; calls = suc db.calls }, r)

-- Whether a call reaches the server is up to its connection.
abbrev pub reached : {A : Type 0} → Link → A → A → A
reached (refused e) a b = a
reached up a b = b
reached (dropped e) a b = b

pub answered-reached :
    {T A : Type 0} (l : Link) (t t' : T) (a : A) → (answered t l (ok (t', a))).0 ≡ reached l t t'
answered-reached up t t' a = refl
answered-reached (refused e) t t' a = refl
answered-reached (dropped e) t t' a = refl
