-- ===== src/App/Actions/Rules.antt =====
-- examples/app: what an action ensures, with a rule for each way to build an action.
use o4x.Prelude.{ℕ, ◌≡◌, refl, sym, ap, suc, none, some, Text}
use o4x.Core.Errors.{Result, ok, err}
use o4x.Pgx.Calls.{Call, Link, up, refused, dropped, answered}
use o4x.App.Store.{Tables, Transaction, AppDatabase}
use o4x.App.Actions.{
  Action, pure, lift, continue, ◌>>=◌, annotated, annotate, app_call, committed, exec,
  beside_nothing, query_pool, rollback, rolled_back, deferring_rollback,
}

-- `Q` after an answer, `E` after an error.
abbrev pub Post :
    {A : Type 0}
    → (A → AppDatabase → Type 0)
    → (AppDatabase → Type 0)
    → AppDatabase × Result A
    → Type 0
Post Q E (db, ok a) = Q a db
Post Q E (db, err e) = E db

pub record Ensures {A : Type 0} (P : AppDatabase → Type 0) (m : Action A)
    (Q : A → AppDatabase → Type 0) (E : AppDatabase → Type 0) : Type 0 where
  pub at : (db : AppDatabase) → P db → Post Q E (m db)

-- A transaction is open that started from the tables `before`, and sees tables with `P`. The server meets the calls
-- of `server`.
pub record InTransaction (server : ℕ → Call) (before : Tables) (P : Tables → Type 0)
    (db : AppDatabase) : Type 0 where
  pub opened :
      (tx : Transaction) × (db.transaction ≡ some tx)
      × (tx.before ≡ before)
      × (db.schedule ≡ server)
  pub seen : P db.tables

-- No transaction is open, and the tables have `P`.
pub record Outside (P : Tables → Type 0) (db : AppDatabase) : Type 0 where
  pub closed : db.transaction ≡ none
  pub holds : P db.tables

-- No transaction is open on the tables `before`, and the server meets these calls.
abbrev pub Idle : (ℕ → Call) → Tables → AppDatabase → Type 0
Idle server before db = Outside (λ t. t ≡ before) db × (db.schedule ≡ server)

-- What a transaction leaves on the way out: itself, or, after a commit, tables with `F`.
pub data Leaving (server : ℕ → Call) (before : Tables) (F : Tables → Type 0) (db : AppDatabase)
    : Type 0 where
  unfinished : InTransaction server before (λ _. Unit) db → Leaving server before F db
  finished : Outside F db → Leaving server before F db

-- Nothing has changed, or the tables have `F`.
pub data Undone (before : Tables) (F : Tables → Type 0) (t : Tables) : Type 0 where
  same : t ≡ before → Undone before F t
  carried_out : F t → Undone before F t

module _ {A : Type 0} {P : AppDatabase → Type 0} {Q : A → AppDatabase → Type 0}
    {E : AppDatabase → Type 0} where
  pub Ensures-pure : (a : A) → ((db : AppDatabase) → P db → Q a db) → Ensures P (pure a) Q E
  unfolding pure
  Ensures-pure a h = record { at = h }

  pub Ensures-lift :
      (r : Result A)
      → ((a : A) (db : AppDatabase) → r ≡ ok a → P db → Q a db)
      → ((db : AppDatabase) → P db → E db)
      → Ensures P (lift r) Q E
  unfolding lift
  Ensures-lift (ok a) h k = record { at = λ db p. h a db refl p }
  Ensures-lift (err e) h k = record { at = k }

  pub Ensures-annotate : (s : Text) (m : Action A) → Ensures P m Q E → Ensures P (annotate s m) Q E
  unfolding annotate
  Ensures-annotate s m h = record { at = λ db p. by (m db) (h.at db p) }
    where
      by : (x : AppDatabase × Result A) → Post Q E x → Post Q E (annotated s x)
      by (db, ok a) q = q
      by (db, err e) q = q

  pub Ensures-weaken :
      {Q' : A → AppDatabase → Type 0} {E' : AppDatabase → Type 0} (m : Action A)
      → Ensures P m Q E
      → ((a : A) (db : AppDatabase) → Q a db → Q' a db)
      → ((db : AppDatabase) → E db → E' db)
      → Ensures P m Q' E'
  Ensures-weaken {Q'} {E'} m h q e = record { at = λ db p. by (m db) (h.at db p) }
    where
      by : (x : AppDatabase × Result A) → Post Q E x → Post Q' E' x
      by (db, ok a) k = q a db k
      by (db, err c) k = e db k

  pub Ensures-deferring_rollback :
      {Q' : A → AppDatabase → Type 0} {E' : AppDatabase → Type 0} (m : Action A)
      → Ensures P m Q E
      → ((a : A) (db : AppDatabase) → Q a db → Q' a (rollback db))
      → ((db : AppDatabase) → E db → E' (rollback db))
      → Ensures P (deferring_rollback m) Q' E'
  unfolding deferring_rollback
  Ensures-deferring_rollback {Q'} {E'} m h q e = record { at = λ db p. by (m db) (h.at db p) }
    where
      by : (x : AppDatabase × Result A) → Post Q E x → Post Q' E' (rolled_back x)
      by (db, ok a) k = q a db k
      by (db, err c) k = e db k

module _ {A B : Type 0} {P : AppDatabase → Type 0} {Q : A → AppDatabase → Type 0}
    {R : B → AppDatabase → Type 0} {E : AppDatabase → Type 0} where
  pub Ensures-bind :
      (m : Action A) (f : A → Action B)
      → Ensures P m Q E
      → ((a : A) → Ensures (Q a) (f a) R E)
      → Ensures P (m >>= f) R E
  unfolding ◌>>=◌
  Ensures-bind m f h k = record { at = λ db p. by (m db) (h.at db p) }
    where
      by : (x : AppDatabase × Result A) → Post Q E x → Post R E (continue f x)
      by (db, ok a) q = (k a).at db q
      by (db, err e) q = q

module _ {A : Type 0} {server : ℕ → Call} {before : Tables} {P : Tables → Type 0}
    {Q : A → Tables → Type 0} {F : Tables → Type 0} where
  pub Ensures-exec :
      (stmt : AppDatabase → Tables → Result (Tables × A))
      → ((db : AppDatabase) (t t' : Tables) (a : A) → P t → stmt db t ≡ ok (t', a) → Q a t')
      → Ensures
          (InTransaction server before P)
          (exec stmt)
          (λ a. InTransaction server before (Q a))
          (Leaving server before F)
  unfolding exec
  Ensures-exec stmt h = record { at = λ db p. by db p (app_call db).link (stmt db db.tables) refl }
    where
      by :
          (db : AppDatabase)
          → InTransaction server before P db
          → (l : Link) (r : Result (Tables × A)) → stmt db db.tables ≡ r
          → Post
              (λ a. InTransaction server before (Q a))
              (Leaving server before F)
              (let (t, x) = answered db.tables l r in
                (record db { tables = t; calls = suc db.calls }, x))
      by db p up (ok (t', a)) e = record { opened = p.opened; seen = h db db.tables t' a p.seen e }
      by db p up (err c) e = Leaving.unfinished (record { opened = p.opened; seen = tt })
      by db p (refused c) r e = Leaving.unfinished (record { opened = p.opened; seen = tt })
      by db p (dropped c) (ok (t', a)) e =
          Leaving.unfinished (record { opened = p.opened; seen = tt })
      by db p (dropped c) (err d) e = Leaving.unfinished (record { opened = p.opened; seen = tt })

  -- A query on the pool sees the tables before the transaction.
  pub Ensures-query_pool :
      (f : Tables → Result A)
      → ((t : Tables) (a : A) → P t → f before ≡ ok a → Q a t)
      → Ensures
          (InTransaction server before P)
          (query_pool f)
          (λ a. InTransaction server before (Q a))
          (Leaving server before F)
  unfolding query_pool
  Ensures-query_pool f h = record {
    at = λ db p. by db p (app_call db).link (f (committed db)) (ap f (old db p.opened));
  }
    where
      old :
          (db : AppDatabase)
          → ((tx : Transaction) × (db.transaction ≡ some tx)
              × (tx.before ≡ before)
              × (db.schedule ≡ server))
          → committed db ≡ before
      old db (tx, e, started, _) = rw e started

      by :
          (db : AppDatabase)
          → InTransaction server before P db
          → (l : Link) (r : Result A) → r ≡ f before
          → Post
              (λ a. InTransaction server before (Q a))
              (Leaving server before F)
              (let (_, x) = answered tt l (beside_nothing r) in
                (record db { calls = suc db.calls }, x))
      by db p up (ok a) e = record { opened = p.opened; seen = h db.tables a p.seen (sym e) }
      by db p up (err c) e = Leaving.unfinished (record { opened = p.opened; seen = tt })
      by db p (refused c) (ok a) e = Leaving.unfinished (record { opened = p.opened; seen = tt })
      by db p (refused c) (err d) e = Leaving.unfinished (record { opened = p.opened; seen = tt })
      by db p (dropped c) (ok a) e = Leaving.unfinished (record { opened = p.opened; seen = tt })
      by db p (dropped c) (err d) e = Leaving.unfinished (record { opened = p.opened; seen = tt })
