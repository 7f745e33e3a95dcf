-- ===== src/System/Answers.antt =====
-- contrib/pgx/repo.go: the answers of the repository while the connection is up, as equations.
use mathlib.Core.Path.{ap₂}
use o4x.Prelude.{
  ℕ, suc, ◌≡◌, refl, sym, ap, ◌∙◌, inl, inr, Bool, true, false, ◌&&◌, none, some, Text, arith,
  any_of, tally, if◌then◌else◌, [], ◌∷◌, text_eq, text_eq_iff, Bool-cases,
}
use o4x.Core.Errors.{ok, is}
use o4x.Core.Model.{Outbox, publishing}
use o4x.Pgx.Table.{Table, has_id, find_row, update_where, change, oldest}
use o4x.Pgx.Calls.{Call, Database, Statement, up, now_call, query}
use o4x.Pgx.Rows.{
  publishing_with, scanned, lock_row, publish_row, kill_row, fail_row, backoff_overflows,
}
use o4x.Pgx.Outbox.{
  fetch_and_lock_to_publishing, fetchable, update_to_published, update_to_dead, update_to_failed,
  affected_error,
}
use o4x.Core.Worker.{settled}
use o4x.Pgx.Keys.{UniqueIds}
use o4x.Pgx.Lookup.{KeepsId}

-- The database after a statement that made the table `t`.
abbrev pub stepped : Database → Table → Database
stepped db t = record db { table = t; calls = suc db.calls }

query_up :
    {A : Type 0} (stmt : Call → Statement A) (db : Database) (t : Table) (a : A)
    → (now_call db).link ≡ up
    → stmt (now_call db) db.table ≡ ok (t, a)
    → query stmt db ≡ (stepped db t, ok a)
query_up stmt db t a link e = rw (link, e) refl

pub fetch_up :
    (db : Database) (r : Outbox)
    → (now_call db).link ≡ up
    → oldest (fetchable (now_call db)) db.table ≡ some r
    → fetch_and_lock_to_publishing db ≡ (
      stepped db (update_where (has_id r.id) (lock_row (now_call db)) db.table),
      ok (scanned (lock_row (now_call db) r)),
    )
unfolding fetch_and_lock_to_publishing
fetch_up db r link e = rw (link, e) refl

pub published_up :
    (j : Text) (db : Database)
    → (now_call db).link ≡ up
    → update_to_published j db ≡ (
      stepped db (update_where (publishing_with j) (publish_row (now_call db)) db.table),
      affected_error j (ok (tally (publishing_with j) db.table)),
    )
unfolding update_to_published
published_up j db link = rw link refl

pub dead_up :
    (j message : Text) (db : Database)
    → (now_call db).link ≡ up
    → update_to_dead j message db ≡ (
      stepped db (update_where (publishing_with j) (kill_row (now_call db) message) db.table),
      affected_error j (ok (tally (publishing_with j) db.table)),
    )
unfolding update_to_dead
dead_up j message db link = rw link refl

pub failed_up :
    (j message : Text) (db : Database)
    → (now_call db).link ≡ up
    → any_of (λ r. publishing_with j r && backoff_overflows db.backoff_base r) db.table ≡ false
    → update_to_failed j message db ≡ (
      stepped db (update_where (publishing_with j) (fail_row (now_call db) db message) db.table),
      affected_error j (ok (tally (publishing_with j) db.table)),
    )
unfolding update_to_failed
failed_up j message db link fits = rw (link, fits) refl

-- Whether or not a row was in the state PUBLISHING, the worker goes on.
pub settled-affected : (j : Text) (n : ℕ) → settled (affected_error j (ok n)) ≡ true
unfolding is
settled-affected j n = ground arith

module _ (j : Text) (f g : Outbox → Outbox) (keep : KeepsId g)
    (locks : (r : Outbox) → (g r).status ≡ publishing) where
  change-change :
      (r : Outbox)
      → change (publishing_with j) f (change (has_id j) g r) ≡ change (has_id j) (λ q. f (g q)) r
  change-change r = elim (Bool-cases (has_id j r)) [
    | inl e ↦
        let here : has_id j (g r) ≡ true = ap (λ i. text_eq i j) (keep r) ∙ e in
        let there : publishing_with j (g r) ≡ true = rw (here, locks r) refl in rw (e, there) refl
    | inr e ↦ rw (e, e) refl
  ]

  -- An update of a row that was just locked is one update of the row.
  pub update_where-update_where :
      (t : Table)
      → update_where (publishing_with j) f (update_where (has_id j) g t)
        ≡ update_where (has_id j) (λ r. f (g r)) t
  unfolding update_where
  update_where-update_where [] = refl
  update_where-update_where (r ∷ t) = ap₂ ◌∷◌ (change-change r) (update_where-update_where t)

-- The locked row is the only one whose backoff is computed.
any_of-absent :
    (p : Outbox → Bool) (j : Text) (g : Outbox → Outbox)
    → KeepsId g
    → (t : Table) → find_row j t ≡ none
    → any_of (λ q. publishing_with j q && p q) (update_where (has_id j) g t) ≡ false
unfolding update_where
any_of-absent p j g keep [] h = refl
any_of-absent p j g keep (q ∷ t) h = elim (Bool-cases (has_id j q)) [
  | inl e ↦ absurd (cc (ap (λ b. if b then some q else find_row j t) (sym e) ∙ h))
  | inr e ↦
      rw (e, e)
        (any_of-absent p j g keep t (ap (λ b. if b then some q else find_row j t) (sym e) ∙ h))
]

and_false : (b : Bool) → (b && false) ≡ false
and_false true = refl
and_false false = refl

pub any_of-locked :
    (p : Outbox → Bool) (j : Text) (g : Outbox → Outbox)
    → KeepsId g
    → (t : Table) (r : Outbox) → UniqueIds t
    → find_row j t ≡ some r
    → p (g r) ≡ false
    → any_of (λ q. publishing_with j q && p q) (update_where (has_id j) g t) ≡ false
unfolding update_where
any_of-locked p j g keep [] r u h fits = absurd (cc)
any_of-locked p j g keep (q ∷ t) r u h fits = elim (Bool-cases (has_id j q)) [
  | inl e ↦
      let found : some q ≡ some r = ap (λ b. if b then some q else find_row j t) (sym e) ∙ h in
      let same : q ≡ r = cc found in
      let pq : p (g q) ≡ false = ap (λ x. p (g x)) same ∙ fits in
      let absent = ap (λ i. find_row i t) (sym ((text_eq_iff q.id j).0 e)) ∙ u.0 in
      rw (e, pq, and_false) (any_of-absent p j g keep t absent)
  | inr e ↦
      rw (e, e)
        (any_of-locked p j g keep t r u.1 (ap (λ b. if b then some q else find_row j t) (sym e) ∙ h)
          fits)
]
