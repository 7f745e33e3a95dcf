-- ===== src/Gorm/Orm.antt =====
-- What contrib/gorm/ uses of gorm.io/gorm, as an interface: the calls that end a chain of `Table`, `Where` and `Raw`, and
-- what gorm documents of them. `Where` is a test of a row; what `Updates`, `Delete`, `Exec` and `Raw` send is a
-- statement on the table.
use o4x.Prelude.{ℕ, ◌≤◌, ◌≡◌, Bool, List, Option, tally, first_of?}
use o4x.Core.Errors.{Result, ok}

abbrev pub Sql : Type 0 → Type 0 → Type 0 → Type 0
Sql Row Call A = Call → List Row → Result (List Row × A)

pub record Orm (Row Call D : Type 0) : Type 0 where
  -- `Exec`, `Updates` and `Delete`, with `RowsAffected`.
  pub exec : Sql Row Call ℕ → D → D × Result ℕ
  -- `Count`
  pub count : (Row → Bool) → D → D × Result ℕ
  -- `First`, where `none` is `gorm.ErrRecordNotFound`.
  pub first : (Row → Bool) → D → D × Result (Option Row)
  -- `Raw` and `Scan` into a struct, where `none` is `RowsAffected == 0`, and into a slice.
  pub scan : Sql Row Call (Option Row) → D → D × Result (Option Row)
  pub scan_all : Sql Row Call (List Row) → D → D × Result (List Row)

-- Each call is one statement on the connection `query`. `First` orders by the primary key, so what it
-- answers is said only where at most one row passes.
pub record IsOrm {Row Call D : Type 0} (orm : Orm Row Call D) (rows : D → List Row)
    (query : (A : Type 0) → Sql Row Call A → D → D × Result A) : Type 0 where
  pub exec_law : (stmt : Sql Row Call ℕ) (db : D) → orm.exec stmt db ≡ query _ stmt db
  pub count_law :
      (p : Row → Bool) (db : D) → orm.count p db ≡ query _ (λ call t. ok (t, tally p t)) db
  pub first_law :
      (p : Row → Bool) (db : D)
      → tally p (rows db) ≤ 1
      → orm.first p db ≡ query _ (λ call t. ok (t, first_of? p t)) db
  pub scan_law : (stmt : Sql Row Call (Option Row)) (db : D) → orm.scan stmt db ≡ query _ stmt db
  pub scan_all_law :
      (stmt : Sql Row Call (List Row)) (db : D) → orm.scan_all stmt db ≡ query _ stmt db
