-- ===== src/App/Outcome.antt =====
-- examples/app/internal/service: how a service that runs in one transaction ends.
use o4x.Prelude.{ℕ, ◌≡◌, refl, ap, none}
use o4x.Pgx.Calls.{Call}
use o4x.Core.Errors.{GoError, Result, ok, err}
use o4x.App.Store.{Tables, AppDatabase}
use o4x.App.Actions.{Action, rollback}
use o4x.App.Actions.Rules.{Post, Ensures, InTransaction, Outside, Leaving, Undone}
use o4x.App.Actions.Transactions.{rollback-Outside}
use o4x.App.Services.{in_transaction}
use o4x.App.Publishing.{Ensures-in_transaction}

-- All of the effects `F` with the answer; no effect and an error; or, when the answer of the commit is
-- lost, all of the effects and an error.
pub data Ended {A : Type 0} (answer : A) (before after : Tables) (F : Tables → Type 0)
    (r : Result A) : Type 0 where
  answered_ok : r ≡ ok answer → F after → Ended answer before after F r
  no_effect : (e : GoError) → r ≡ err e → after ≡ before → Ended answer before after F r
  answer_lost : (e : GoError) → r ≡ err e → F after → Ended answer before after F r

-- The end of a service, with its transaction closed.
abbrev pub Outcome : {A : Type 0} → A → Tables → (Tables → Type 0) → AppDatabase × Result A → Type 0
Outcome answer before F (db, r) = (db.transaction ≡ none) × Ended answer before db.tables F r

module _ {A : Type 0} (server : ℕ → Call) (answer : A) (before : Tables) (F G : Tables → Type 0)
    (effects : (t : Tables) → F t → G t) where
  after_error :
      (e : GoError) (db : AppDatabase)
      → Outside (Undone before F) db
      → Outcome answer before G (db, err e)
  after_error e db p = (p.closed, by db.tables p.holds)
    where
      by : (t : Tables) → Undone before F t → Ended answer before t G (err e)
      by t (Undone.same h) = Ended.no_effect e refl h
      by t (Undone.carried_out f) = Ended.answer_lost e refl (effects t f)

  pub in_transaction-Outcome :
      (m : Action A)
      → Ensures
          (InTransaction server before (λ t. t ≡ before))
          m
          (λ a db. (a ≡ answer) × Outside F db)
          (Leaving server before F)
      → (db : AppDatabase) → db.transaction ≡ none
      → db.tables ≡ before
      → db.schedule ≡ server
      → Outcome answer before G (in_transaction m db)
  in_transaction-Outcome m h db closed start same = by (in_transaction m db) (
      (Ensures-in_transaction {Q' = λ a d. (a ≡ answer) × Outside F d} m h again).at db
        (record { closed = closed; holds = start }, same))
    where
      again :
          (a : A) (d : AppDatabase)
          → (a ≡ answer) × Outside F d
          → (a ≡ answer) × Outside F (rollback d)
      again a d (e, p) = (e, rollback-Outside F d p)

      by :
          (x : AppDatabase × Result A)
          → Post (λ a d. (a ≡ answer) × Outside F d) (Outside (Undone before F)) x
          → Outcome answer before G x
      by (d, ok a) (e, p) = (p.closed, Ended.answered_ok (ap ok e) (effects d.tables p.holds))
      by (d, err e) p = after_error e d p
