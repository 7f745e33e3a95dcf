-- ===== src/Pgx/Progress.antt =====
-- contrib/pgx/repo.go: what it takes for a call to keep the keys unique and to take every row along the
-- diagram.
use mathlib.Core.Path.{subst}
use o4x.Prelude.{◌≡◌, ap, Bool, true, false, ◌&&◌, some, Text, if◌then◌else◌, arith}
use o4x.Core.Errors.{GoError, ok, err}
use o4x.Core.Model.{Outbox, OutboxStatus, status_eq}
use o4x.Pgx.Table.{Table, find_row, update_where}
use o4x.Pgx.Calls.{Call, Database, now_call, query, Statement}
use o4x.Pgx.Lookup.{KeepsId, answered-table}
use o4x.Pgx.Keys.{UniqueIds, UniqueIds-update_where}
use o4x.Pgx.Lifecycle.{Moved, TableFollows, TableFollows-refl, TableFollows-update_where}

-- A table after another: the keys are unique, and the rows have followed their edges.
abbrev pub Progress : Table → Table → Type 0
Progress t u = UniqueIds u × TableFollows t u

pub Progress-refl : (t : Table) → UniqueIds t → Progress t t
Progress-refl t u = (u, TableFollows-refl t)

pub Progress-update_where :
    (p : Outbox → Bool) (f : Outbox → Outbox)
    → KeepsId f
    → (t : Table) → UniqueIds t
    → ((j : Text) (r : Outbox) → find_row j t ≡ some r → p r ≡ true → Moved r (f r))
    → Progress t (update_where p f t)
Progress-update_where p f keep t u moves =
    (UniqueIds-update_where p f keep t u, TableFollows-update_where p f keep t moves)

pub ok-fst : {A : Type 0} (x y : Table × A) → ok x ≡ ok y → x.0 ≡ y.0
ok-fst x y e = let same : x ≡ y = cc in ap (λ p. p.0) same

-- A call makes progress if its statement does.
pub Progress-query :
    {A : Type 0} (stmt : Call → Statement A) (db : Database)
    → UniqueIds db.table
    → ((t : Table) (a : A) → stmt (now_call db) db.table ≡ ok (t, a) → Progress db.table t)
    → Progress db.table (query stmt db).0.table
Progress-query stmt db u h =
    answered-table (Progress db.table) db.table (now_call db).link (stmt (now_call db) db.table)
      (Progress-refl db.table u) h

-- A statement that the server cannot refuse.
pub Progress-query_ok :
    {A : Type 0} (f : Call → Table → Table × A) (db : Database)
    → UniqueIds db.table
    → Progress db.table (f (now_call db) db.table).0
    → Progress db.table (query (λ call t. ok (f call t)) db).0.table
Progress-query_ok f db u h =
    Progress-query (λ call t. ok (f call t)) db u
      λ t a e. subst (Progress db.table) (ok-fst (f (now_call db) db.table) (t, a) e) h

-- A statement that the server may refuse.
pub Progress-unless :
    {A : Type 0} (refuses : Bool) (e : GoError) (t : Table) (done : Table × A)
    → Progress t done.0
    → (t' : Table) (a : A) → (if refuses then err e else ok done) ≡ ok (t', a)
    → Progress t t'
Progress-unless true e t done h t' a eq = absurd (cc)
Progress-unless false e t done h t' a eq = subst (Progress t) (ok-fst done (t', a) eq) h

pub status_is : (b : Bool) (s t : OutboxStatus) → (b && status_eq s t) ≡ true → s ≡ t
status_is b s t h = ground arith

pub first_status : (b : Bool) (s t : OutboxStatus) → (status_eq s t && b) ≡ true → s ≡ t
first_status b s t h = ground arith
