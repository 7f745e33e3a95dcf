-- ===== src/App/Statements.antt =====
-- examples/app/internal/repository: what the statements of the repositories have in common.
use o4x.Prelude.{
  ℕ, zero, suc, ◌^◌, Bool, true, false, Option, none, some, List, [], ◌∷◌, ◌++◌, codes, ltb, any_of,
  if◌then◌else◌,
}
use o4x.Core.Errors.{GoError, external, Result, ok, err}
use o4x.Core.Int64.{ℤ}

-- `INTEGER`
abbrev pub fits_int4 : ℤ → Bool
fits_int4 (ℤ.pos n) = ltb n (2 ^ 31)
fits_int4 (ℤ.negsuc n) = ltb n (2 ^ 31)

abbrev pub bad_value : GoError
bad_value = external (codes "value out of range")

abbrev pub duplicate_key : GoError
duplicate_key = external (codes "duplicate key value violates unique constraint")

-- `pgx.ErrNoRows`
abbrev pub no_rows : GoError
no_rows = external (codes "no rows in result set")

module _ {A : Type 0} where
  abbrev pub update_row : Bool → A → Result A → Result (List A × ℕ) → Result (List A × ℕ)
  update_row true x (err e) rest = err e
  update_row true x (ok y) (err e) = err e
  update_row true x (ok y) (ok (ys, n)) = ok (y ∷ ys, suc n)
  update_row false x r (err e) = err e
  update_row false x r (ok (ys, n)) = ok (x ∷ ys, n)

  -- `UPDATE … SET f WHERE p`, which fails as a whole when a new row violates a constraint, with the
  -- number of rows affected.
  unfoldable pub update_rows : (A → Bool) → (A → Result A) → List A → Result (List A × ℕ)
  update_rows p f [] = ok ([], 0)
  update_rows p f (x ∷ xs) = update_row (p x) x (f x) (update_rows p f xs)

  -- `INSERT`, where `p` are the rows that have a key of the new one.
  unfoldable pub insert_unique : (A → Bool) → A → List A → Result (List A)
  insert_unique p x xs = if any_of p xs then err duplicate_key else ok (xs ++ x ∷ [])

  -- `Scan` of one row.
  abbrev pub scan_row : Option A → Result A
  scan_row none = err no_rows
  scan_row (some x) = ok x

-- `RowsAffected() == 0`
unfoldable pub affected : GoError → ℕ → Result (Unit {0})
affected e zero = err e
affected e (suc n) = ok tt

module _ {A T : Type 0} where
  abbrev pub if_ok : (A → T) → Result A → Result T
  if_ok f (ok a) = ok (f a)
  if_ok f (err e) = err e

module _ {A : Type 0} where
  -- The values are converted before anything is looked at.
  abbrev pub values_fit : Bool → Result A → Result A
  values_fit true r = r
  values_fit false r = err bad_value
