-- ===== src/App/Actions/Transactions.antt =====
-- examples/app: what `pool.Begin`, `tx.Commit` and the deferred `tx.Rollback` ensure.
use o4x.Prelude.{ℕ, ◌≡◌, refl, suc, none, some}
use o4x.Core.Errors.{ok, err}
use o4x.Pgx.Calls.{Call, Link, up, refused, dropped}
use o4x.App.Store.{Tables, AppDatabase}
use o4x.App.Actions.{app_call, begin, commit, rollback}
use o4x.App.Actions.Rules.{Post, Ensures, InTransaction, Outside, Leaving, Undone, Idle}

module _ {server : ℕ → Call} {before : Tables} {F : Tables → Type 0} where
  -- `begin`, where no transaction is open.
  pub Ensures-begin :
      Ensures
        (Idle server before)
        begin
        (λ _. InTransaction server before (λ t. t ≡ before))
        (Outside (Undone before F))
  unfolding begin
  Ensures-begin = record { at = λ db p. by db p (app_call db).link }
    where
      by :
          (db : AppDatabase)
          → Idle server before db
          → (l : Link)
          → Post {A = Unit {0}}
              (λ _. InTransaction server before (λ t. t ≡ before))
              (Outside (Undone before F))
              (elim l [
                | Link.up ↦ (
                  record db {
                    transaction = some (record { before = db.tables; now = (app_call db).clock });
                    calls = suc db.calls;
                  },
                  ok tt,
                )
                | Link.refused e ↦ (record db { calls = suc db.calls }, err e)
                | Link.dropped e ↦ (record db { calls = suc db.calls }, err e)
              ])
      by db (p, same) up = record { opened = (_, refl, p.holds, same); seen = p.holds }
      by db (p, same) (refused e) = record { closed = p.closed; holds = Undone.same p.holds }
      by db (p, same) (dropped e) = record { closed = p.closed; holds = Undone.same p.holds }

  pub Ensures-commit :
      Ensures (InTransaction server before F) commit (λ _. Outside F) (Leaving server before F)
  unfolding commit
  Ensures-commit = record { at = λ db p. by db p (app_call db).link }
    where
      by :
          (db : AppDatabase)
          → InTransaction server before F db
          → (l : Link)
          → Post {A = Unit {0}}
              (λ _. Outside F)
              (Leaving server before F)
              (elim l [
                | Link.up ↦ (record db { transaction = none; calls = suc db.calls }, ok tt)
                | Link.refused e ↦ (record db { calls = suc db.calls }, err e)
                | Link.dropped e ↦ (record db { transaction = none; calls = suc db.calls }, err e)
              ])
      by db p up = record { closed = refl; holds = p.seen }
      by db p (refused e) = Leaving.unfinished (record { opened = p.opened; seen = tt })
      by db p (dropped e) = Leaving.finished (record { closed = refl; holds = p.seen })

-- A rollback gives back the tables before the transaction, and does nothing after a commit.
pub rollback-InTransaction :
    (server : ℕ → Call) (before : Tables) (P : Tables → Type 0) (db : AppDatabase)
    → InTransaction server before P db
    → Outside (λ t. t ≡ before) (rollback db)
unfolding rollback
rollback-InTransaction server before P db p =
    let (tx, e, started, _) = p.opened in
    rw (e, rollback) (record { closed = refl; holds = started })

pub rollback-Outside :
    (P : Tables → Type 0) (db : AppDatabase) → Outside P db → Outside P (rollback db)
unfolding rollback
rollback-Outside P db p = rw (p.closed, rollback) p

pub rollback-Leaving :
    (server : ℕ → Call) (before : Tables) (F : Tables → Type 0) (db : AppDatabase)
    → Leaving server before F db
    → Outside (Undone before F) (rollback db)
rollback-Leaving server before F db (Leaving.unfinished p) =
    let r = rollback-InTransaction server before (λ _. Unit) db p in
    record { closed = r.closed; holds = Undone.same r.holds }
rollback-Leaving server before F db (Leaving.finished p) =
    let r = rollback-Outside F db p in
    record { closed = r.closed; holds = Undone.carried_out r.holds }
